-- ===== src/Tests/Limits.antt =====
-- Examples of the pin limiter and of the rate limiter
-- (antelope-firewall-lib/src/firewall_builder.rs, antelope-firewall-lib/src/ratelimiter.rs).
use antelope_firewall.Prelude.{
  ◌↔◌, ◌==◌, ℕ, ◌+◌, ◌-◌, ◌≤◌, ◌≡◌, refl, ◌⊎◌, true, false, none, some, List, [], ◌∷◌, arith, Text,
  codes,
}
use antelope_firewall.Prelude.Maps.{get, insert, contains_key}
use antelope_firewall.Cache.{handle_cache_option}
use antelope_firewall.PinLimiter.{
  PinLimiter, new, admits, open_window, make_room, admitted, calls_of,
}
use antelope_firewall.PinLimiter.Bounds.{new-IsValid}
use antelope_firewall.PinLimiter.Ceiling.{admitted_window, admits_refused_iff, Refusal}
use antelope_firewall.RateLimiter.{
  RateLimiter, before, get_current_window, roll, get_or_zero, over_limit, should_request_pass,
  pass_buckets, charge, increment, update_current_window, elapsed_current_window, finish,
  count_for_ip,
}
use antelope_firewall.RateLimiter.History.{Counts, total, log_charges}
use antelope_firewall.RateLimiter.Charges.{should_request_pass-Counts, PaidAll}
use antelope_firewall.RateLimiter.Admission.{should_request_pass_iff}
use antelope_firewall.RateLimiter.Effect.{ceiling}
use antelope_firewall.RateLimiter.Ceiling.{Call, run_calls, run_calls-ceiling}
use antelope_firewall.Tests.Apis.{Json, nothing, floats}

abbrev alice : Text
alice = codes "10.0.0.1::a"

abbrev bob : Text
bob = codes "10.0.0.2::a"

-- Two pins a minute.
abbrev two_pins : PinLimiter
two_pins = new 2 60

abbrev later_calls : List (Text × ℕ)
later_calls = (alice, 5) ∷ (bob, 6) ∷ (alice, 7) ∷ []

admitted_window_example : admitted alice two_pins ((alice, 0) ∷ later_calls) ≡ 2
unfolding new calls_of admits open_window make_room contains_key get ◌==◌
admitted_window_example =
    admitted_window two_pins alice 0 later_calls (new-IsValid 2 60) (omega arith) (λ s e. cc) refl
      (omega arith, (omega arith, (omega arith, tt)))

admits_refused_iff_example : ((admits (new 0 60) alice 3).1 ≡ false) ↔ Refusal (new 0 60) alice 3
admits_refused_iff_example = admits_refused_iff (new 0 60) alice 3

-- Three requests a minute for each key; a request is its key.
abbrev limiter : RateLimiter Text Json Json
limiter = record {
  name = codes "per_key";
  should_be_limited = λ request value json. true;
  get_buckets = λ name request value json. request ∷ [];
  get_ratelimit = λ request value json. 3;
  increment_mode = before (λ request value json. 1);
  cache = none;
  window_duration = 60;
  state = record { window = 0; last = []; current = [] };
  processed = 0;
  denied = 0;
  accepted = 0;
}

abbrev one_used_limiter : RateLimiter Text Json Json
one_used_limiter = record limiter {
  state = record { window = 0; last = []; current = (alice, 1) ∷ [] };
  processed = 1;
  accepted = 1;
}

abbrev early : ℕ → ℕ
early i = i + 1

first_passes :
    should_request_pass floats nothing limiter alice nothing early ≡ some (one_used_limiter, true)
unfolding should_request_pass pass_buckets charge increment update_current_window get_current_window
    roll elapsed_current_window over_limit count_for_ip finish handle_cache_option get insert ◌==◌
first_passes = refl

should_request_pass_iff_example :
    (l' : RateLimiter Text Json Json) × (should_request_pass floats nothing limiter alice nothing
        early
      ≡ some (l', true))
unfolding get_current_window handle_cache_option elapsed_current_window over_limit count_for_ip roll
    get
should_request_pass_iff_example =
    (should_request_pass_iff floats nothing limiter alice nothing early 0 refl
        (λ json. (refl, tt))).1
      (nothing, refl, refl, ((0, refl, refl), tt))

limiter-Counts : Counts [] limiter.state
unfolding get total
limiter-Counts = record { current = λ b. refl; last = λ b. refl; past = tt }

should_request_pass-Counts_example :
    (paid : List Text) × (n : ℕ) × Counts (log_charges 0 n paid []) one_used_limiter.state
    × (one_used_limiter.state.window ≡ 0)
    × ((true ≡ false)
        ⊎ PaidAll floats nothing limiter (λ request value json. 1) alice nothing n paid)
unfolding get_current_window
should_request_pass-Counts_example =
    should_request_pass-Counts floats nothing [] limiter (λ request value json. 1) alice nothing
      early 0 one_used_limiter true refl (λ json. omega arith) refl (omega arith) limiter-Counts
      first_passes

abbrev one_call : List (Call Text Json)
one_call = record { request = alice; value = nothing; clock = early } ∷ []

one_call_runs : run_calls floats nothing limiter one_call ≡ some (one_used_limiter, 1)
unfolding run_calls
one_call_runs = ground (arith, first_passes)

run_calls-ceiling_example : 1 ≤ ceiling 3 - get_or_zero alice limiter.state.current
unfolding get_current_window get ◌==◌
run_calls-ceiling_example =
    run_calls-ceiling floats nothing alice 3 limiter one_call one_used_limiter 1
      (
        record {
          now = refl;
          one = (λ request value json. 1, refl, λ json. refl);
          rate = λ json. refl;
          distinct = λ json. (refl, tt);
          holds = λ json. refl;
        },
        tt,
      )
      (omega arith) one_call_runs
