-- ===== src/RateLimiter/Settings.antt =====
-- What a call cannot change of a rate limiter (antelope-firewall-lib/src/ratelimiter.rs).
use antelope_firewall.Prelude.{
  ℕ, ◌+◌, ◌≡◌, refl, ◌⊎◌, inl, inr, Bool, some, [], arith, Bool-cases, Option-cases,
}
use antelope_firewall.Cache.{handle_cache_option}
use antelope_firewall.RateLimiter.{
  F32, RateLimiter, IncrementMode, before, after, update_current_window, pass_buckets, finish,
  should_request_pass, left_by_panic, post_increment,
}

mode_cases :
    {Request Value Response : Type 0} (m : IncrementMode Request Value Response)
    → ((g : Request → Value → Value → ℕ) × (m ≡ before g))
      ⊎ ((g : Request → Value → Response → Value → ℕ) × (m ≡ after g))
mode_cases (before g) = inl (g, refl)
mode_cases (after g) = inr (g, refl)

module _ {Request Value Response : Type 0} (null : Value) where
  -- A limiter without its window state and its counters.
  abbrev pub limiter_settings :
      RateLimiter Request Value Response → RateLimiter Request Value Response
  limiter_settings l = record l {
    state = record { window = 0; last = []; current = [] };
    processed = 0;
    denied = 0;
    accepted = 0;
  }

  pub post_increment-settings :
      (l : RateLimiter Request Value Response) (request : Request) (value : Value)
      (response : Response)
      → limiter_settings (post_increment null l request value response) ≡ limiter_settings l
  unfolding post_increment
  post_increment-settings l request value response =
      elim (Option-cases (handle_cache_option null l.cache)) [
        | inl e ↦ ground (arith, e)
        | inr (json, e) ↦ elim (mode_cases l.increment_mode) [
          | inl (g, m) ↦ ground (arith, e, m)
          | inr (g, m) ↦ ground (arith, e, m)
        ]
      ]

  module _ (f : F32) where
    pub should_request_pass-settings :
        (l l' : RateLimiter Request Value Response) (request : Request) (value : Value)
        (clock : ℕ → ℕ) (passed : Bool)
        → should_request_pass f null l request value clock ≡ some (l', passed)
        → limiter_settings l' ≡ limiter_settings l
    unfolding should_request_pass finish
    should_request_pass-settings l l' request value clock passed h =
        elim (Option-cases (update_current_window (clock 0) l.window_duration l.state)) [
          | inl e ↦ ground (arith, e, h)
          | inr (s, e) ↦ elim (Option-cases (handle_cache_option null l.cache)) [
            | inl c ↦ ground (arith, e, c, h)
            | inr (json, c) ↦ elim (Bool-cases (l.should_be_limited request value json)) [
              | inr t ↦ ground (arith, e, c, t, h)
              | inl t ↦
                  elim (Option-cases (
                    pass_buckets f null (record l { processed = l.processed + 1 }) request value
                      json (l.get_ratelimit request value json) s
                      (l.get_buckets l.name request value json) s.current clock 1)) [
                        | inl p ↦ ground (arith, e, c, t, p, h)
                        | inr (r, p) ↦ ground (arith, e, c, t, p, h)
                      ]
            ]
          ]
        ]

    pub left_by_panic-settings :
        (l : RateLimiter Request Value Response) (request : Request) (value : Value) (clock : ℕ → ℕ)
        → limiter_settings (left_by_panic f null l request value clock) ≡ limiter_settings l
    unfolding left_by_panic
    left_by_panic-settings l request value clock =
        elim (Option-cases (update_current_window (clock 0) l.window_duration l.state)) [
          | inl e ↦ ground (arith, e)
          | inr (s, e) ↦ elim (Option-cases (handle_cache_option null l.cache)) [
            | inl c ↦ ground (arith, e, c)
            | inr (json, c) ↦ ground (arith, e, c)
          ]
        ]
