-- ===== src/RateLimiter/History.antt =====
-- The two buckets of a rate limiter (antelope-firewall-lib/src/ratelimiter.rs) against the history
-- of all increments: what `current` and `last` hold is what was counted in the two windows.
use antelope_firewall.Prelude.{
  ℕ, zero, suc, ◌+◌, ◌%◌, ◌≤◌, ◌<◌, ◌≡◌, refl, sym, ap, ◌∙◌, inl, inr, ◌&&◌, List, [], ◌∷◌, arith,
  Text, ◌==◌, text_eq_iff, eqb, if◌then◌else◌, All, Bool-cases, Option-cases, All-mono, eqb_iff,
}
use antelope_firewall.Prelude.Maps.{Map, get, get-insert}
use antelope_firewall.RateLimiter.{
  WindowState, u64_mod, get_or_zero, increment, roll, increment_all,
}

-- An increment: its window, its bucket and its amount.
pub record Event : Type 0 where
  pub at : ℕ
  pub bucket : Text
  pub amount : ℕ

-- All that was counted for a bucket in a window.
unfoldable pub total : ℕ → Text → List Event → ℕ
total w b [] = 0
total w b (e ∷ es) =
    let rest = total w b es in if eqb e.at w && (e.bucket == b) then e.amount + rest else rest

-- The window before, if there is one.
abbrev pub total_before : ℕ → Text → List Event → ℕ
total_before zero b es = 0
total_before (suc w) b es = total w b es

pub record Counts (es : List Event) (s : WindowState) : Type 0 where
  pub current : (b : Text) → get_or_zero b s.current ≡ total s.window b es % u64_mod
  pub last : (b : Text) → get_or_zero b s.last ≡ total_before s.window b es % u64_mod
  pub past : All (λ (e : Event). e.at ≤ s.window) es

total_future :
    (w v : ℕ) (b : Text) (es : List Event)
    → All (λ (e : Event). e.at ≤ v) es
    → v < w
    → total w b es ≡ 0
unfolding total
total_future w v b [] h lt = refl
total_future w v b (e ∷ es) h lt = ground (arith, total_future w v b es h.1)

total_before_future :
    (w v : ℕ) (b : Text) (es : List Event)
    → All (λ (e : Event). e.at ≤ v) es
    → v + 1 < w
    → total_before w b es ≡ 0
total_before_future zero v b es h lt = refl
total_before_future (suc w) v b es h lt = total_future w v b es h (omega arith)

total_before-next :
    (w v : ℕ) (b : Text) (es : List Event) → w + 1 ≡ v → total_before v b es ≡ total w b es
total_before-next w zero b es h = absurd (omega arith)
total_before-next w (suc v) b es h = let e : v ≡ w = omega arith in ap (λ (t : ℕ). total t b es) e

get_or_zero-empty : (b : Text) → get_or_zero b [] ≡ 0
unfolding get
get_or_zero-empty b = refl

pub empty-Counts : (w : ℕ) → Counts [] (record { window = w; last = []; current = [] })
unfolding total
empty-Counts w = record {
  current = λ b. get_or_zero-empty b;
  last = λ b. get_or_zero-empty b ∙ before w b;
  past = tt;
}
  where
    before : (v : ℕ) (b : Text) → 0 ≡ total_before v b [] % u64_mod
    before zero b = refl
    before (suc v) b = refl

-- A roll to a window that is no earlier keeps the account: the next window inherits the counts as
-- its last ones, a later one starts empty, and the same one changes nothing.
pub roll-Counts :
    (es : List Event) (s : WindowState) (real : ℕ)
    → s.window ≤ real
    → Counts es s
    → Counts es (roll s real)
unfolding roll
roll-Counts es s real le c = elim (Bool-cases (eqb real s.window)) [
  | inl same ↦ rw (same) c
  | inr later ↦ elim (Bool-cases (eqb (s.window + 1) real)) [
    | inl next ↦
        rw (later, next)
          (record {
            current =
                λ b. ground (arith, get_or_zero-empty b, total_future real s.window b es c.past);
            last = λ b.
                c.current b
                ∙ ap (λ (t : ℕ). t % u64_mod)
                    (sym (
                      total_before-next s.window real b es ((eqb_iff (s.window + 1) real).0 next)));
            past = All-mono _ _ es (λ e h. omega arith) c.past;
          })
    | inr far ↦
        rw (later, far)
          (record {
            current =
                λ b. ground (arith, get_or_zero-empty b, total_future real s.window b es c.past);
            last = λ b.
                ground (arith, get_or_zero-empty b, total_before_future real s.window b es c.past);
            past = All-mono _ _ es (λ e h. omega arith) c.past;
          })
  ]
]

pub roll-window : (s : WindowState) (real : ℕ) → (roll s real).window ≡ real
unfolding roll
roll-window s real = ground arith

get_or_zero-increment :
    (k b : Text) (n : ℕ) (m : Map ℕ)
    → n < u64_mod
    → get_or_zero b (increment m k n)
      ≡ (if k == b then (get_or_zero k m + n) % u64_mod else get_or_zero b m)
unfolding increment
get_or_zero-increment k b n m lt = elim (Option-cases (get k m)) [
  | inl e ↦ ground (arith, e, get-insert k b n m)
  | inr (v, e) ↦ ground (arith, e, get-insert k b ((v + n) % u64_mod) m)
]

abbrev pub event : WindowState → Text → ℕ → Event
event s b n = record { at = s.window; bucket = b; amount = n }

total_before-newer :
    (w : ℕ) (b k : Text) (n : ℕ) (es : List Event)
    → total_before w b (record { at = w; bucket = k; amount = n } ∷ es) ≡ total_before w b es
unfolding total
total_before-newer zero b k n es = refl
total_before-newer (suc w) b k n es = ground arith

-- One increment is one more event of the state's window.
pub increment-Counts :
    (es : List Event) (s : WindowState) (k : Text) (n : ℕ)
    → n < u64_mod
    → Counts es s
    → Counts (event s k n ∷ es) (record s { current = increment s.current k n })
increment-Counts es s k n lt c = record {
  current = λ b.
      unfold total in
      ground (
        arith,
        get_or_zero-increment k b n s.current lt,
        c.current b,
        c.current k,
        text_eq_iff k b,
      );
  last = λ b. c.last b ∙ ap (λ (t : ℕ). t % u64_mod) (sym (total_before-newer s.window b k n es));
  past = (omega arith, c.past);
}

-- The log after one amount is charged to several buckets in a window, the newest event first.
abbrev pub log_charges : ℕ → ℕ → List Text → List Event → List Event
log_charges w n [] es = es
log_charges w n (b ∷ bs) es = log_charges w n bs (record { at = w; bucket = b; amount = n } ∷ es)

-- An amount that fits u64 and is charged to several buckets after the answer, as by a limiter of
-- failures, is one event of the current window for each bucket: the account of both windows stays
-- exact.
pub increment_all-Counts :
    (es : List Event) (s : WindowState) (bs : List Text) (n : ℕ)
    → n < u64_mod
    → Counts es s
    → Counts (log_charges s.window n bs es) (record s { current = increment_all n s.current bs })
unfolding increment_all
increment_all-Counts es s [] n lt c = c
increment_all-Counts es s (b ∷ bs) n lt c =
    increment_all-Counts (event s b n ∷ es) (record s { current = increment s.current b n }) bs n lt
      (increment-Counts es s b n lt c)
