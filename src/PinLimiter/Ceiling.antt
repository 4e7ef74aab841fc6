-- ===== src/PinLimiter/Ceiling.antt =====
-- The ceiling of the pin limiter: within one window of a key, `admits` lets through exactly the
-- first `limit` calls, whatever is called for other keys between them.
use antelope_firewall.Prelude.{
  ℕ, suc, ◌↔◌, refl, ltb, length, ◌+◌, ◌-◌, ◌≤◌, ◌<◌, ◌≡◌, ◌∙◌, ◌≢◌, inl, inr, true, false, not,
  none, some, List, [], ◌∷◌, arith, Text, ◌==◌, text_eq_iff, text_eq_refl, eq_of_text, leb, eqb,
  if◌then◌else◌, All, Bool-cases, Option-cases,
}
use Prim.Native.Nat.{min}
use antelope_firewall.Prelude.Maps.{
  Map, retain, get, IsMap, get-insert, get-insert_self, contains_key-get,
}
use antelope_firewall.PinLimiter.{
  PinLimiter, Slot, make_room, open_window, count_pin, admits, admitted, calls_of,
}
use antelope_firewall.PinLimiter.Bounds.{IsValid, get-make_room, admits-IsValid}

-- The call comes within the window of length `w` that began at `started`.
abbrev pub Within : ℕ → ℕ → Text × ℕ → Type 0
Within w started c = c.1 - started < w

-- `admits` never touches the configuration.
pub admits-config :
    (l : PinLimiter) (k : Text) (now : ℕ)
    → ((admits l k now).0.limit ≡ l.limit) × ((admits l k now).0.window ≡ l.window)
unfolding admits open_window count_pin
admits-config l k now = ground arith

-- A call for a key whose window is live counts up to the limit, and no further.
live_call :
    (l : PinLimiter) (k : Text) (now started count : ℕ)
    → 0 < l.limit
    → get k l.state ≡ some (started, count)
    → now - started < l.window
    → (get k (admits l k now).0.state
        ≡ some (started, (if leb l.limit count then count else count + 1)))
      × ((admits l k now).1 ≡ not (leb l.limit count))
unfolding admits count_pin
live_call l k now started count pos here live =
    ground (arith, get-insert_self k (started, count + 1) l.state)

get-open_window_ne :
    (l : PinLimiter) (j k : Text) (now : ℕ) (s : Slot)
    → j ≢ k
    → IsMap l.state
    → get k l.state ≡ some s
    → now - s.0 < l.window
    → get k (open_window l j now).0.state ≡ some s
unfolding open_window
get-open_window_ne l j k now s ne d here live = ground (
  arith,
  text_eq_iff j k,
  get-insert j k (now, 1) l.state,
  get-insert j k (now, 1) (make_room l.state now l.window).0,
  get-make_room k l.state now l.window d,
)

get-count_pin_ne :
    (l : PinLimiter) (j k : Text) (s : Slot)
    → j ≢ k
    → get k (count_pin l j s).0.state ≡ get k l.state
unfolding count_pin
get-count_pin_ne l j k s ne = ground (arith, text_eq_iff j k, get-insert j k (s.0, s.1 + 1) l.state)

-- A call for another key leaves a live counter alone, also when it sweeps a full map.
pub get-admits_ne :
    (l : PinLimiter) (j k : Text) (now : ℕ) (s : Slot)
    → j ≢ k
    → IsMap l.state
    → get k l.state ≡ some s
    → now - s.0 < l.window
    → get k (admits l j now).0.state ≡ some s
unfolding admits
get-admits_ne l j k now s ne d here live = elim (Option-cases (get j l.state)) [
  | inl e ↦ ground (arith, e, get-open_window_ne l j k now s ne d here live)
  | inr (t, e) ↦
      ground (arith, e, get-open_window_ne l j k now s ne d here live, get-count_pin_ne l j k t ne)
]

module _ (k : Text) (limit window started : ℕ) (pos : 0 < limit) where
  admitted-Within :
      (l : PinLimiter) (count : ℕ) (calls : List (Text × ℕ))
      → IsValid l
      → l.limit ≡ limit
      → l.window ≡ window
      → get k l.state ≡ some (started, count)
      → All (Within window started) calls
      → admitted k l calls ≡ min (calls_of k calls) (limit - count)
  unfolding admitted calls_of
  admitted-Within l count [] v el ew here within = omega arith
  admitted-Within l count ((j, now) ∷ calls) v el ew here within =
      let rest = λ (count' : ℕ) (e : get k (admits l j now).0.state ≡ some (started, count')).
        admitted-Within (admits l j now).0 count' calls (admits-IsValid l j now v)
          ((admits-config l j now).0 ∙ el) ((admits-config l j now).1 ∙ ew) e within.1 in
      elim (Bool-cases (j == k)) [
        | inl same ↦
            let own = live_call l k now started count (omega arith) here (omega arith) in
            let e = eq_of_text j k same in
            ground (arith, own, e, same, rest (if leb l.limit count then count else count + 1))
        | inr other ↦ ground (
          arith,
          other,
          text_eq_iff j k,
          rest count,
          get-admits_ne l j k now (started, count) (λ e. cc (other, e, text_eq_refl k)) v.distinct
              here,
        )
      ]

-- The key holds no counter, or one whose window has ended.
abbrev pub IsFresh : PinLimiter → Text → ℕ → Type 0
IsFresh l k now = (s : Slot) → get k l.state ≡ some s → l.window ≤ now - s.0

open_window-get :
    (l : PinLimiter) (k : Text) (now : ℕ)
    → (open_window l k now).1 ≡ true
    → get k (open_window l k now).0.state ≡ some (now, 1)
unfolding open_window
open_window-get l k now e = ground (
  arith,
  get-insert_self k (now, 1) l.state,
  get-insert_self k (now, 1) (make_room l.state now l.window).0,
)

admits_fresh :
    (l : PinLimiter) (k : Text) (now : ℕ)
    → 0 < l.limit
    → IsFresh l k now
    → admits l k now ≡ open_window l k now
unfolding admits
admits_fresh l k now pos fresh = elim (Option-cases (get k l.state)) [
  | inl e ↦ ground (arith, e)
  | inr (s, e) ↦ ground (arith, e, fresh s e)
]

-- The fixed window, for a valid limiter with a limit above zero: where a call opens a window for a
-- key that has no live one, and the calls after it, for any keys, come within that window, the
-- key's calls that are admitted, the first included, are as many as were made or as the limit,
-- whichever is less.
pub admitted_window :
    (l : PinLimiter) (k : Text) (now : ℕ) (calls : List (Text × ℕ))
    → IsValid l
    → 0 < l.limit
    → IsFresh l k now
    → (admits l k now).1 ≡ true
    → All (Within l.window now) calls
    → admitted k l ((k, now) ∷ calls) ≡ min (calls_of k ((k, now) ∷ calls)) l.limit
unfolding admitted calls_of
admitted_window l k now calls v pos fresh opened within =
    let a = admits_fresh l k now pos fresh in
    let here : get k (admits l k now).0.state ≡ some (now, 1) =
      rw a (open_window-get l k now (rw a at opened)) in
    ground (
      arith,
      opened,
      text_eq_refl k,
      admitted-Within k l.limit l.window now pos (admits l k now).0 1 calls
          (admits-IsValid l k now v) (admits-config l k now).0 (admits-config l k now).1 here
          within,
    )

-- How many counters are in a window of length `w` that has not ended at `now`.
unfoldable pub live : ℕ → ℕ → Map Slot → ℕ
live w now [] = 0
live w now ((k, s) ∷ m) = let rest = live w now m in if ltb (now - s.0) w then suc rest else rest

-- The three grounds for refusing a pin: a limit of zero, a live counter of the key at the limit, or
-- a key without a counter when 10000 counters are live.
pub data Refusal (l : PinLimiter) (k : Text) (now : ℕ) : Type 0 where
  no_pins : l.limit ≡ 0 → Refusal l k now
  at_limit :
      (s : Slot) → get k l.state ≡ some s → now - s.0 < l.window → l.limit ≤ s.1 → Refusal l k now
  no_room : get k l.state ≡ none → 10000 ≤ live l.window now l.state → Refusal l k now

length-retain :
    (w now : ℕ) (m : Map Slot) → length (retain (λ s. ltb (now - s.0) w) m) ≡ live w now m
unfolding live retain
length-retain w now [] = refl
length-retain w now ((k, s) ∷ m) = ground (arith, length-retain w now m)

live_le : (w now : ℕ) (m : Map Slot) → live w now m ≤ length m
unfolding live
live_le w now [] = ground arith
live_le w now ((k, s) ∷ m) = ground (arith, live_le w now m)

-- There is no room just when as many counters as may be held are live.
make_room_full :
    (m : Map Slot) (now w : ℕ) → ((make_room m now w).1 ≡ false) ↔ (10000 ≤ live w now m)
unfolding make_room
make_room_full m now w = (
  λ e. ground (arith, length-retain w now m),
  λ full. ground (arith, length-retain w now m, live_le w now m),
)

open_window_refused :
    (l : PinLimiter) (k : Text) (now : ℕ)
    → (open_window l k now).1 ≡ false
    → (get k l.state ≡ none) × ((make_room l.state now l.window).1 ≡ false)
unfolding open_window
open_window_refused l k now e = ground (arith, contains_key-get k l.state)

refused_grounds :
    (l : PinLimiter) (k : Text) (now : ℕ) → (admits l k now).1 ≡ false → Refusal l k now
unfolding admits
refused_grounds l k now e = elim (Bool-cases (eqb l.limit 0)) [
  | inl z ↦ no_pins (ground arith)
  | inr pos ↦ elim (Option-cases (get k l.state)) [
    | inl absent ↦ full (open_window_refused l k now (rw (pos, absent, admits) at e))
    | inr (s, here) ↦ elim (Bool-cases (leb l.window (now - s.0))) [
      | inl over ↦ full (open_window_refused l k now (rw (pos, here, admits, over) at e))
      | inr live ↦
          at_limit s here (ground arith)
            (unfold count_pin in ground (arith, rw (pos, here, admits, live) at e))
    ]
  ]
]
  where
    full : (get k l.state ≡ none) × ((make_room l.state now l.window).1 ≡ false) → Refusal l k now
    full r = no_room r.0 ((make_room_full l.state now l.window).0 r.1)

grounds_refused :
    (l : PinLimiter) (k : Text) (now : ℕ) → Refusal l k now → (admits l k now).1 ≡ false
unfolding admits open_window count_pin
grounds_refused l k now (no_pins z) = ground arith
grounds_refused l k now (at_limit s here live full) = ground arith
grounds_refused l k now (no_room absent full) =
    ground (arith, contains_key-get k l.state, (make_room_full l.state now l.window).1 full)

-- A pin is refused just when the limit is zero, or the key has a counter whose window has not ended
-- and which stands at the limit, or the key has no counter and the windows of 10000 counters have
-- not ended: ended windows never stand in the way of a new key.
pub admits_refused_iff :
    (l : PinLimiter) (k : Text) (now : ℕ) → ((admits l k now).1 ≡ false) ↔ Refusal l k now
admits_refused_iff l k now = (refused_grounds l k now, grounds_refused l k now)
