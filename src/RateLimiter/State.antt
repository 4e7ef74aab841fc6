-- ===== src/RateLimiter/State.antt =====
-- The window state of a rate limiter and its arithmetic (antelope-firewall-lib/src/ratelimiter.rs).
use antelope_firewall.Prelude.{
  ℕ, ◌+◌, ◌-◌, ◌*◌, ◌/◌, ◌%◌, ◌^◌, Bool, not, ◌||◌, Option, none, some, List, [], ◌∷◌, Text, ltb,
  leb, eqb, if◌then◌else◌,
}
use antelope_firewall.Prelude.Maps.{Map, get, insert}

abbrev pub u64_mod : ℕ
u64_mod = 2 ^ 64

abbrev pub nanos_per_sec : ℕ
nanos_per_sec = 10 ^ 9

-- The single precision operations that the limiter uses.
pub record F32 : Type 1 where
  pub Float : Type 0
  pub one : Float
  pub of_u64 : ℕ → Float
  -- `Duration::as_secs_f32`, of nanoseconds.
  pub secs_f32 : ℕ → Float
  pub add : Float → Float → Float
  pub sub : Float → Float → Float
  pub mul : Float → Float → Float
  pub div : Float → Float → Float
  pub gt : Float → Float → Bool

-- `current_window_state`: the window, the buckets of the window before it, and its own.
pub record WindowState : Type 0 where
  pub window : ℕ
  pub last : Map ℕ
  pub current : Map ℕ

abbrev pub get_or_zero : Text → Map ℕ → ℕ
get_or_zero k m = elim (get k m) [ none ↦ 0 | some n ↦ n ]

-- `entry(bucket).and_modify(|e| *e += val).or_insert(val)`.
unfoldable pub increment : Map ℕ → Text → ℕ → Map ℕ
increment m bucket val = elim (get bucket m) [
  | none ↦ insert bucket val m
  | some e ↦ insert bucket ((e + val) % u64_mod) m
]

-- `none` stands for the panic of a division by zero.
unfoldable pub get_current_window : ℕ → ℕ → Option ℕ
get_current_window now window_duration =
    if eqb window_duration 0 then none else some (now / nanos_per_sec / window_duration)

unfoldable pub roll : WindowState → ℕ → WindowState
roll s real =
    if not (eqb real s.window)
    then record {
      window = real;
      last = if not (eqb (s.window + 1) real) then [] else s.current;
      current = [];
    }
    else s

unfoldable pub update_current_window : ℕ → ℕ → WindowState → Option WindowState
update_current_window now window_duration s = elim (get_current_window now window_duration) [
  | none ↦ none
  | some real ↦ some (roll s real)
]

module _ (f : F32) where
  open f use {Float, one, of_u64, secs_f32, add, sub, mul, div, gt}

  -- Fraction of the current window that is elapsed; `none` stands for "Time went backwards".
  unfoldable pub elapsed_current_window : ℕ → ℕ → ℕ → Option Float
  elapsed_current_window now window_duration current_window =
      let start = current_window * window_duration * nanos_per_sec in
      if ltb now start then none else some (div (secs_f32 (now - start)) (of_u64 window_duration))

  unfoldable pub count_for_ip : ℕ → ℕ → Float → Float
  count_for_ip current_count last_count ratio_elapsed =
      add (mul (of_u64 current_count) ratio_elapsed)
        (mul (of_u64 last_count) (sub one ratio_elapsed))

  -- The test that denies a bucket.
  unfoldable pub over_limit : ℕ → ℕ → ℕ → Float → Bool
  over_limit rate_limit current_count last_count ratio_elapsed =
      gt (count_for_ip current_count last_count ratio_elapsed) (of_u64 rate_limit)
      || leb (2 * rate_limit % u64_mod) current_count

-- The loop of `post_increment`.
unfoldable pub increment_all : ℕ → Map ℕ → List Text → Map ℕ
increment_all rate_used current [] = current
increment_all rate_used current (b ∷ bs) =
    increment_all rate_used (increment current b rate_used) bs
