-- ===== src/Tests/Failures.antt =====
-- An example of a limiter of failures (antelope-firewall-lib/src/ratelimiter.rs): a call, its failed
-- answer, a call in the next window, and another failed answer.
use antelope_firewall.Prelude.{
  ℕ, ◌+◌, ◌*◌, ◌^◌, ◌<◌, refl, Bool, true, none, List, [], ◌∷◌, arith, Text, codes, ◌==◌, ltb,
  if◌then◌else◌,
}
use antelope_firewall.Prelude.Maps.{get, insert}
use antelope_firewall.Cache.{handle_cache_option}
use antelope_firewall.RateLimiter
use antelope_firewall.RateLimiter.{
  RateLimiter, after, u64_mod, should_request_pass, post_increment, pass_buckets, charge, increment,
  increment_all, update_current_window, get_current_window, roll, elapsed_current_window,
  over_limit, count_for_ip, finish,
}
use antelope_firewall.RateLimiter.History.{Event, Counts}
use antelope_firewall.RateLimiter.Failures.{Runs, done, call, answer, Runs-Counts}
use antelope_firewall.Tests.Apis.{floats}

-- Requests are addresses, answers the status.
abbrev failures : Text → Bool → ℕ → Bool → ℕ
failures request value status json = if ltb status 300 then 0 else 1

failures-lt :
    (request : Text) (value : Bool) (status : ℕ) → failures request value status true < u64_mod
failures-lt request value status = ground arith

abbrev limiter : ℕ → List (Text × ℕ) → List (Text × ℕ) → ℕ → RateLimiter Text Bool ℕ
limiter window last current calls = record {
  name = codes "failures";
  should_be_limited = λ request value json. true;
  get_buckets = λ name request value json. request ∷ [];
  get_ratelimit = λ request value json. 3;
  increment_mode = after failures;
  cache = none;
  window_duration = 60;
  state = record { window = window; last = last; current = current };
  processed = calls;
  denied = 0;
  accepted = calls;
}

abbrev peer : Text
peer = codes "10.0.0.1"

abbrev log : List Event
log =
    record { at = 1; bucket = peer; amount = 1 } ∷ record { at = 0; bucket = peer; amount = 1 } ∷ []

abbrev last_state : RateLimiter Text Bool ℕ
last_state = limiter 1 ((peer, 1) ∷ []) ((peer, 1) ∷ []) 2

run : Runs floats true failures last_state log (limiter 0 [] [] 0) []
unfolding handle_cache_option should_request_pass post_increment pass_buckets charge increment
    increment_all update_current_window get_current_window roll elapsed_current_window over_limit
    count_for_ip finish get insert ◌==◌
run =
    call {next = limiter 0 [] [] 1} peer true (λ i. i) 0 true refl (omega arith) refl
      (answer peer true 500 (
        call {next = limiter 1 ((peer, 1) ∷ []) [] 2} peer true (λ i. 60 * 10 ^ 9 + i) 1 true refl
          (omega arith) refl (answer peer true 404 done)))

Runs-Counts_example : Counts log last_state.state
unfolding RateLimiter.new get_current_window
Runs-Counts_example =
    Runs-Counts floats true failures (codes "failures") (λ request value json. true)
      (λ name request value json. request ∷ []) (λ request value json. 3) 60 0 (limiter 0 [] [] 0)
      last_state log failures-lt refl run
