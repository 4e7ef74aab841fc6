-- ===== src/Firewall/Serving/Settings.antt =====
-- What a request cannot change of the filters and the rate limiters that it runs through
-- (antelope-firewall-lib/src/filter.rs, antelope-firewall-lib/src/ratelimiter.rs).
use antelope_firewall.Prelude.{
  ℕ, suc, ◌≡◌, refl, inl, inr, Option, some, List, [], ◌∷◌, map, arith, Bool-cases, Option-cases,
}
use antelope_firewall.Cache.{handle_cache_option}
use antelope_firewall.Filter.{Filter}
use antelope_firewall.Filter
use antelope_firewall.RateLimiter.{F32, RateLimiter, should_request_pass, should_run_before_request}
use antelope_firewall.RateLimiter.Settings.{
  limiter_settings, post_increment-settings, should_request_pass-settings,
}
use antelope_firewall.Firewall.Loops.{run_filters, run_limiters, post_increments}

module _ {Request Value : Type 0} (null : Value) where
  -- A filter without its counters.
  abbrev pub filter_settings : Filter Request Value → Filter Request Value
  filter_settings g = record g { processed = 0; denied = 0; accepted = 0 }

  pub pass-filter_settings :
      (g : Filter Request Value) (request : Request) (value : Value)
      → filter_settings (Filter.should_request_pass null g request value).0 ≡ filter_settings g
  unfolding Filter.should_request_pass
  pass-filter_settings g request value = elim (Option-cases (handle_cache_option null g.cache)) [
    | inl e ↦ ground (arith, e)
    | inr (json, e) ↦ ground (arith, e)
  ]

  pub run_filters-settings :
      (gs : List (Filter Request Value)) (request : Request) (value : Value)
      → map filter_settings (run_filters null gs request value).0 ≡ map filter_settings gs
  unfolding run_filters
  run_filters-settings [] request value = refl
  run_filters-settings (g ∷ gs) request value =
      elim (Bool-cases (Filter.should_request_pass null g request value).1) [
        | inl t ↦
            ground (
              arith,
              t,
              pass-filter_settings g request value,
              run_filters-settings gs request value,
            )
        | inr t ↦ ground (arith, t, pass-filter_settings g request value)
      ]

module _ {Request Value Response : Type 0} (null : Value) where
  module _ (f : F32) where
    pub run_limiters-settings :
        (ls ls' : List (RateLimiter Request Value Response)) (request : Request) (value : Value)
        (clock : ℕ → ℕ → ℕ) (refused : Option ℕ)
        → run_limiters null f ls request value clock ≡ some (ls', refused)
        → map (limiter_settings null) ls' ≡ map (limiter_settings null) ls
    unfolding run_limiters
    run_limiters-settings [] ls' request value clock refused h = ground (arith, h)
    run_limiters-settings (l ∷ ls) ls' request value clock refused h =
        elim (Option-cases (should_request_pass f null l request value (clock 0))) [
          | inl e ↦ ground (arith, e, h)
          | inr ((next, passed), e) ↦
              let same =
                should_request_pass-settings null f l next request value (clock 0) passed e in
              elim (Bool-cases passed) [
                | inr t ↦ ground (arith, e, t, h, same)
                | inl t ↦
                    elim (Option-cases
                      (run_limiters null f ls request value (λ i. clock (suc i)))) [
                        | inl r ↦ ground (arith, e, t, r, h)
                        | inr ((rest, last), r) ↦
                            let same_rest =
                              run_limiters-settings ls rest request value (λ i. clock (suc i)) last
                                r in
                            ground (arith, e, t, r, h, same, same_rest)
                      ]
              ]
        ]

  pub post_increments-settings :
      (ls : List (RateLimiter Request Value Response)) (request : Request) (value : Value)
      (response : Response)
      → map (limiter_settings null) (post_increments null ls request value response)
        ≡ map (limiter_settings null) ls
  unfolding post_increments
  post_increments-settings [] request value response = refl
  post_increments-settings (l ∷ ls) request value response =
      let same = post_increment-settings null l request value response in
      let rest = post_increments-settings ls request value response in
      elim (Bool-cases (should_run_before_request Request Value Response l.increment_mode)) [
        | inl t ↦ ground (arith, t, rest)
        | inr t ↦ ground (arith, t, same, rest)
      ]
