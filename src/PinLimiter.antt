-- ===== src/PinLimiter.antt =====
-- `PinLimiter` of antelope-firewall-lib/src/firewall_builder.rs: the fixed window counter over the
-- pinned requests of one client address and node name. An `Instant` is a number of nanoseconds, and
-- `duration_since` saturates at 0 as the subtraction of ℕ does. The mutex is held over the whole of
-- `admits`, so that concurrent calls are some sequence of calls, each with the time it read before.
pub mod Bounds
pub mod Ceiling
pub mod Key
use antelope_firewall.Prelude.{
  ℕ, suc, ◌+◌, ◌-◌, ◌*◌, ◌^◌, Bool, true, false, ◌&&◌, none, some, List, [], ◌∷◌, Text, ◌==◌, ltb,
  leb, eqb, if◌then◌else◌, length,
}
use antelope_firewall.Prelude.Maps.{Map, get, insert, contains_key, retain}

abbrev pub max_pin_keys : ℕ
max_pin_keys = 10000

-- When the window of a key began, and the pinned requests that it has admitted.
abbrev pub Slot : Type 0
Slot = ℕ × ℕ

pub record PinLimiter : Type 0 where
  pub limit : ℕ
  pub window : ℕ
  pub state : Map Slot

unfoldable pub new : ℕ → ℕ → PinLimiter
new limit window_seconds = record { limit = limit; window = window_seconds * 10 ^ 9; state = [] }

-- Sweep the windows that ended and report whether the map has room for one more key.
unfoldable pub make_room : Map Slot → ℕ → ℕ → Map Slot × Bool
make_room state now window =
    if ltb (length state) max_pin_keys
    then (state, true)
    else (let swept = retain (λ s. ltb (now - s.0) window) state in
        (swept, ltb (length swept) max_pin_keys))

-- The branch `expired` of `admits`.
unfoldable pub open_window : PinLimiter → Text → ℕ → PinLimiter × Bool
open_window l key now =
    if contains_key key l.state
    then (record l { state = insert key (now, 1) l.state }, true)
    else (let (swept, room) = make_room l.state now l.window in
        if room
        then (record l { state = insert key (now, 1) swept }, true)
        else (record l { state = swept }, false))

-- The rest of `admits`: the window is live.
unfoldable pub count_pin : PinLimiter → Text → Slot → PinLimiter × Bool
count_pin l key counted =
    if leb l.limit counted.1
    then (l, false)
    else (record l { state = insert key (counted.0, counted.1 + 1) l.state }, true)

-- Admit one more pinned request for this key inside the current window.
unfoldable pub admits : PinLimiter → Text → ℕ → PinLimiter × Bool
admits l key now = if eqb l.limit 0 then (l, false) else elim (get key l.state) [
  | none ↦ open_window l key now
  | some s ↦ if leb l.window (now - s.0) then open_window l key now else count_pin l key s
]

-- A sequence of calls: the limiter after it, and how many calls of one key it admitted.
unfoldable pub run : PinLimiter → List (Text × ℕ) → PinLimiter
run l [] = l
run l ((key, now) ∷ calls) = run (admits l key now).0 calls

unfoldable pub admitted : Text → PinLimiter → List (Text × ℕ) → ℕ
admitted k l [] = 0
admitted k l ((key, now) ∷ calls) =
    let rest = admitted k (admits l key now).0 calls in
    if (key == k) && (admits l key now).1 then suc rest else rest

unfoldable pub calls_of : Text → List (Text × ℕ) → ℕ
calls_of k [] = 0
calls_of k ((key, now) ∷ calls) = let rest = calls_of k calls in if key == k then suc rest else rest
