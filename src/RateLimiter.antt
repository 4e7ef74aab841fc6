-- ===== src/RateLimiter.antt =====
-- antelope-firewall-lib/src/ratelimiter.rs: the sliding window rate limiter, two buckets of counts
-- per key. The closures that a limiter is built with are functions of the request; the clock is the
-- sequence of the readings that one call makes, in nanoseconds since the epoch; `f32` is the
-- parameter `F32`. Counts are `u64` and wrap around. A panic is `none`.
pub mod Charges
pub mod History
pub mod Settings
pub mod Failures
pub mod Admission
pub mod Effect
pub mod Ceiling
mod State
unfoldable pub use State.*
use antelope_firewall.Prelude.{
  ℕ, suc, ◌+◌, Bool, true, false, Option, none, some, List, [], ◌∷◌, Text, if◌then◌else◌,
}
use antelope_firewall.Prelude.Maps.{Map}
use antelope_firewall.Cache.{JsonDataCache, handle_cache_option}

-- The type of a limiter's request: what the closures see of `RequestInfo` and the body.
module _ (Request Value Response : Type 0) where
  pub data IncrementMode : Type 0 where
    before : (Request → Value → Value → ℕ) → IncrementMode
    after : (Request → Value → Response → Value → ℕ) → IncrementMode

  unfoldable pub should_run_before_request : IncrementMode → Bool
  should_run_before_request (before f) = true
  should_run_before_request (after f) = false

pub record RateLimiter (Request Value Response : Type 0) : Type 0 where
  pub name : Text
  pub should_be_limited : Request → Value → Value → Bool
  pub get_buckets : Text → Request → Value → Value → List Text
  pub get_ratelimit : Request → Value → Value → ℕ
  pub increment_mode : IncrementMode Request Value Response
  -- What the shared cache holds when the limiter is called.
  pub cache : Option (JsonDataCache Value)
  pub window_duration : ℕ
  pub state : WindowState
  pub processed : ℕ
  pub denied : ℕ
  pub accepted : ℕ

module _ {Request Value Response : Type 0} where
  -- What one bucket is charged before the request is sent.
  unfoldable pub charge :
      IncrementMode Request Value Response → Request → Value → Value → Map ℕ → Text → Map ℕ
  charge (before get_rate_used) request value json current bucket =
      increment current bucket (get_rate_used request value json)
  charge (after get_rate_used) request value json current bucket = current

module _ {Request Value Response : Type 0} (f : F32) (null : Value) where
  -- The loop of `should_request_pass` over the buckets; `clock i` is the reading of its next round.
  unfoldable pub pass_buckets :
      RateLimiter Request Value Response
      → Request
      → Value
      → Value
      → ℕ
      → WindowState
      → List Text
      → Map ℕ
      → (ℕ → ℕ)
      → ℕ
      → Option (Map ℕ × Bool)
  pass_buckets l request value json rate_limit s [] current clock i = some (current, true)
  pass_buckets l request value json rate_limit s (bucket ∷ buckets) current clock i =
      let current_count = get_or_zero bucket current in
      let last_count = get_or_zero bucket s.last in
      let charged = charge l.increment_mode request value json current bucket in
      let rest = pass_buckets l request value json rate_limit s buckets charged clock (suc i) in
      elim (elapsed_current_window f (clock i) l.window_duration s.window) [
        | none ↦ none
        | some ratio_elapsed ↦
            if over_limit f rate_limit current_count last_count ratio_elapsed
            then some (charged, false)
            else rest
      ]

  -- What the call leaves when the loop has run.
  unfoldable pub finish :
      RateLimiter Request Value Response
      → WindowState
      → Map ℕ × Bool
      → RateLimiter Request Value Response × Bool
  finish l s (current, passed) = (
    record l {
      state = record s { current = current };
      denied = if passed then l.denied else l.denied + 1;
      accepted = if passed then l.accepted + 1 else l.accepted;
    },
    passed,
  )

  unfoldable pub should_request_pass :
      RateLimiter Request Value Response
      → Request
      → Value
      → (ℕ → ℕ)
      → Option (RateLimiter Request Value Response × Bool)
  should_request_pass l0 request value clock =
      let l = record l0 { processed = l0.processed + 1 } in
      elim (update_current_window (clock 0) l.window_duration l.state) [
        | none ↦ none
        | some s ↦ elim (handle_cache_option null l.cache) [
          | none ↦ some (record l { state = s }, false)
          | some json ↦
              if l.should_be_limited request value json
              then elim (pass_buckets l request value json (l.get_ratelimit request value json) s
                  (l.get_buckets l.name request value json) s.current clock 1) [
                    | none ↦ none
                    | some r ↦ some (finish l s r)
                  ]
              else some (record l { state = s }, false)
        ]
      ]

  -- What a call that panics at a clock leaves: the window of its first reading, and the charges of
  -- the buckets before the one whose reading panics.
  unfoldable pub charged_until :
      RateLimiter Request Value Response
      → Request
      → Value
      → Value
      → WindowState
      → List Text
      → Map ℕ
      → (ℕ → ℕ)
      → ℕ
      → Map ℕ
  charged_until l request value json s [] current clock i = current
  charged_until l request value json s (bucket ∷ buckets) current clock i =
      let charged = charge l.increment_mode request value json current bucket in
      let rest = charged_until l request value json s buckets charged clock (suc i) in
      elim (elapsed_current_window f (clock i) l.window_duration s.window) [
        | none ↦ current
        | some ratio_elapsed ↦ rest
      ]

  unfoldable pub left_by_panic :
      RateLimiter Request Value Response
      → Request
      → Value
      → (ℕ → ℕ)
      → RateLimiter Request Value Response
  left_by_panic l0 request value clock =
      let l = record l0 { processed = l0.processed + 1 } in
      elim (update_current_window (clock 0) l.window_duration l.state) [
        | none ↦ l
        | some s ↦ elim (handle_cache_option null l.cache) [
          | none ↦ record l { state = s }
          | some json ↦ record l {
            state = record s {
              current =
                  charged_until l request value json s (l.get_buckets l.name request value json)
                    s.current clock 1;
            };
          }
        ]
      ]

module _ {Request Value Response : Type 0} (null : Value) where
  -- Run after the request has been sent.
  unfoldable pub post_increment :
      RateLimiter Request Value Response
      → Request
      → Value
      → Response
      → RateLimiter Request Value Response
  post_increment l request value response = elim (handle_cache_option null l.cache) [
    | none ↦ l
    | some json ↦ elim l.increment_mode [
      | before get_rate_used ↦ l
      | after get_rate_used ↦ record l {
        state = record l.state {
          current =
              increment_all (get_rate_used request value response json) l.state.current
                (l.get_buckets l.name request value json);
        };
      }
    ]
  ]

-- `RateLimiter::new`; `none` stands for the panic of `get_current_window`.
module _ {Request Value Response : Type 0} where
  unfoldable pub new :
      Text
      → (Request → Value → Value → Bool)
      → (Text → Request → Value → Value → List Text)
      → (Request → Value → Value → ℕ)
      → IncrementMode Request Value Response
      → Option (JsonDataCache Value)
      → ℕ
      → ℕ
      → Option (RateLimiter Request Value Response)
  new name should_be_limited get_buckets get_ratelimit increment_mode cache window_duration now =
      elim (get_current_window now window_duration) [
        | none ↦ none
        | some window ↦ some (record {
          name = name;
          should_be_limited = should_be_limited;
          get_buckets = get_buckets;
          get_ratelimit = get_ratelimit;
          increment_mode = increment_mode;
          cache = cache;
          window_duration = window_duration;
          state = record { window = window; last = []; current = [] };
          processed = 0;
          denied = 0;
          accepted = 0;
        })
      ]
