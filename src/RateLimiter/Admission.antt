-- ===== src/RateLimiter/Admission.antt =====
-- Which requests `should_request_pass` (antelope-firewall-lib/src/ratelimiter.rs) lets through.
use antelope_firewall.Prelude.{
  ℕ, suc, ◌+◌, ◌%◌, ◌≡◌, refl, ◌↔◌, inl, inr, true, false, some, List, [], ◌∷◌, arith, Text, ◌==◌,
  text_eq_iff, Bool-cases, Option-cases, contains, Distinct,
}
use antelope_firewall.Prelude.Maps.{Map, get, get-insert}
use antelope_firewall.Cache.{handle_cache_option}
use antelope_firewall.RateLimiter.Charges.{counted, should_request_pass_cases}
use antelope_firewall.RateLimiter.{
  F32, RateLimiter, IncrementMode, before, after, WindowState, u64_mod, get_or_zero, increment,
  get_current_window, roll, update_current_window, pass_buckets, should_request_pass, charge,
  over_limit, elapsed_current_window, finish,
}

pub get_or_zero-increment_ne :
    (k b : Text) (n : ℕ) (m : Map ℕ)
    → (k == b) ≡ false
    → get_or_zero b (increment m k n) ≡ get_or_zero b m
unfolding increment
get_or_zero-increment_ne k b n m ne = elim (Option-cases (get k m)) [
  | inl e ↦ ground (arith, e, get-insert k b n m)
  | inr (v, e) ↦ ground (arith, e, get-insert k b ((v + n) % u64_mod) m)
]

module _ {Request Value Response : Type 0} (f : F32) (null : Value)
    (l : RateLimiter Request Value Response) (request : Request) (value json : Value) (limit : ℕ)
    (s : WindowState) where
  -- Every bucket is under the limit, by the counts before the call and the clock's readings.
  abbrev pub AllUnder : List Text → Map ℕ → (ℕ → ℕ) → ℕ → Type 0
  AllUnder [] current clock i = Unit
  AllUnder (b ∷ bs) current clock i =
      ((ratio : f.Float) × (elapsed_current_window f (clock i) l.window_duration s.window
          ≡ some ratio)
        × (over_limit f limit (get_or_zero b current) (get_or_zero b s.last) ratio ≡ false))
      × AllUnder bs current clock (suc i)

  get_or_zero-charge_ne :
      (k b : Text) (m : Map ℕ)
      → (k == b) ≡ false
      → get_or_zero b (charge l.increment_mode request value json m k) ≡ get_or_zero b m
  get_or_zero-charge_ne k b m ne = go l.increment_mode
    where
      go :
          (mode : IncrementMode Request Value Response)
          → get_or_zero b (charge mode request value json m k) ≡ get_or_zero b m
      go (before g) = unfold charge in get_or_zero-increment_ne k b (g request value json) m ne
      go (after g) = unfold charge in refl

  -- A charge of another bucket does not count.
  AllUnder-charge :
      (k : Text) (bs : List Text) (m : Map ℕ) (clock : ℕ → ℕ) (i : ℕ)
      → contains bs k ≡ false
      → AllUnder bs (charge l.increment_mode request value json m k) clock i ↔ AllUnder bs m clock i
  AllUnder-charge k [] m clock i h = (λ x. tt, λ x. tt)
  AllUnder-charge k (b ∷ bs) m clock i h =
      let e = get_or_zero-charge_ne k b m (ground (arith, text_eq_iff k b, text_eq_iff b k)) in
      let ih = AllUnder-charge k bs m clock (suc i) (ground arith) in
      (λ x. ((x.0.0, x.0.1, rw e at x.0.2), ih.0 x.1), λ x. ((x.0.0, x.0.1, rw e x.0.2), ih.1 x.1))

  -- The loop lets a request pass just when every one of its buckets is under the limit by the
  -- counts from before the call: the buckets of a set do not disturb one another.
  pub pass_buckets_iff :
      (buckets : List Text) (current : Map ℕ) (clock : ℕ → ℕ) (i : ℕ)
      → Distinct buckets
      → ((current' : Map ℕ) × (pass_buckets f null l request value json limit s buckets current
              clock i
            ≡ some (current', true)))
        ↔ AllUnder buckets current clock i
  unfolding pass_buckets
  pass_buckets_iff [] current clock i d = (λ x. tt, λ x. (current, refl))
  pass_buckets_iff (b ∷ bs) current clock i d =
      let ih =
        pass_buckets_iff bs (charge l.increment_mode request value json current b) clock (suc i)
          d.1 in
      let skip = AllUnder-charge b bs current clock (suc i) d.0 in
      (
        λ (c, h).
            elim (Option-cases (elapsed_current_window f (clock i) l.window_duration s.window)) [
              | inl e ↦ ground (arith, e)
              | inr (ratio, e) ↦
                  elim (Bool-cases
                    (over_limit f limit (get_or_zero b current) (get_or_zero b s.last) ratio)) [
                      | inl over ↦ ground (arith, e, over)
                      | inr under ↦ ((ratio, e, under), skip.0 (ih.0 (c, ground (arith, e, under))))
                    ]
            ],
        λ x. let (c, h) = ih.1 (skip.1 x.1) in (c, ground (arith, x.0.1, x.0.2, h)),
      )

-- The whole call, where the window has a length and the buckets of a request differ: a request
-- passes just when the limiter's cache gives a value, the limiter applies to the request, and
-- every bucket of the request is under the limit in the window of the time read first. In
-- particular a request that the limiter does not apply to is refused.
pub should_request_pass_iff :
    {Request Value Response : Type 0} (f : F32) (null : Value)
    (l : RateLimiter Request Value Response) (request : Request) (value : Value) (clock : ℕ → ℕ)
    (real : ℕ)
    → get_current_window (clock 0) l.window_duration ≡ some real
    → ((json : Value) → Distinct (l.get_buckets l.name request value json))
    → ((l' : RateLimiter Request Value Response) × (should_request_pass f null l request value clock
          ≡ some (l', true)))
      ↔ ((json : Value) × (handle_cache_option null l.cache ≡ some json)
          × (l.should_be_limited request value json ≡ true)
          × AllUnder f null l request value json
              (l.get_ratelimit request value json)
              (roll l.state real)
              (l.get_buckets l.name request value json)
              (roll l.state real).current
              clock
              1)
should_request_pass_iff f null l request value clock real now d = (
  λ (l', h). elim (should_request_pass_cases f null l request value clock real l' true now h) [
    | inl early ↦ cc (early.1)
    | inr run ↦ (
      run.0,
      run.1,
      run.2,
      (pass_buckets_iff f null (counted f null l) request value run.0
            (l.get_ratelimit request value run.0) (roll l.state real)
            (l.get_buckets l.name request value run.0) (roll l.state real).current clock 1
            (d run.0)).0
          (run.3.0, ground (arith, run.4, run.6)),
    )
  ],
  λ (json, e, t, under).
      let (c, p) =
        (pass_buckets_iff f null (counted f null l) request value json
            (l.get_ratelimit request value json) (roll l.state real)
            (l.get_buckets l.name request value json) (roll l.state real).current clock 1
            (d json)).1
          under in
      (
        (finish f null (counted f null l) (roll l.state real) (c, true)).0,
        unfold should_request_pass update_current_window finish in ground (arith, e, t, p),
      ),
)
