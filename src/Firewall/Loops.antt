-- ===== src/Firewall/Loops.antt =====
-- The loops of `handle_request` (antelope-firewall-lib/src/firewall_builder.rs) over the filters and
-- over the rate limiters.
use antelope_firewall.Prelude.{
  ℕ, suc, Bool, true, false, Option, none, some, List, [], ◌∷◌, if◌then◌else◌,
}
use antelope_firewall.Filter.{Filter}
use antelope_firewall.Filter
use antelope_firewall.RateLimiter.{
  F32, RateLimiter, should_request_pass, post_increment, should_run_before_request,
}

module _ {Request Value : Type 0} (null : Value) where
  -- The loop over the filters: the first that refuses ends it.
  unfoldable pub run_filters :
      List (Filter Request Value) → Request → Value → List (Filter Request Value) × Bool
  run_filters [] request value = ([], true)
  run_filters (f ∷ fs) request value =
      let (f', passed) = Filter.should_request_pass null f request value in
      let (fs', rest) = run_filters fs request value in
      if passed then (f' ∷ fs', rest) else (f' ∷ fs, false)

  module _ {Response : Type 0} (f : F32) where
    -- The loop over the rate limiters: the first that refuses ends it and gives its window.
    -- `clock` holds the readings of each limiter's call.
    unfoldable pub run_limiters :
        List (RateLimiter Request Value Response)
        → Request
        → Value
        → (ℕ → ℕ → ℕ)
        → Option (List (RateLimiter Request Value Response) × Option ℕ)
    run_limiters [] request value clock = some ([], none)
    run_limiters (l ∷ ls) request value clock =
        let rest = run_limiters ls request value (λ i. clock (suc i)) in
        elim (should_request_pass f null l request value (clock 0)) [
          | none ↦ none
          | some (l', passed) ↦
              if passed
              then elim rest [ none ↦ none | some (ls', refused) ↦ some (l' ∷ ls', refused) ]
              else some (l' ∷ ls, some l.window_duration)
        ]

  -- The limiters that count after the answer.
  unfoldable pub post_increments :
      {Response : Type 0}
      → List (RateLimiter Request Value Response)
      → Request
      → Value
      → Response
      → List (RateLimiter Request Value Response)
  post_increments [] request value response = []
  post_increments {Response} (l ∷ ls) request value response =
      (if should_run_before_request Request Value Response l.increment_mode
        then l
        else post_increment null l request value response)
      ∷ post_increments ls request value response
