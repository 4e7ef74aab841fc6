-- ===== src/RateLimiter/Charges.antt =====
-- What one call of `should_request_pass` or `post_increment`
-- (antelope-firewall-lib/src/ratelimiter.rs) charges, and what that leaves in the two buckets.
use mathlib.Core.List.{append-nil}
use antelope_firewall.Prelude.{
  ℕ, suc, ◌+◌, ◌≤◌, ◌<◌, ◌≡◌, refl, sym, ap, ◌∙◌, subst, ◌⊎◌, inl, inr, Bool, true, false, some,
  List, [], ◌∷◌, ◌++◌, arith, Text, Bool-cases, Option-cases,
}
use antelope_firewall.Prelude.Maps.{Map}
use antelope_firewall.Cache.{handle_cache_option}
use antelope_firewall.RateLimiter.{
  F32, RateLimiter, before, WindowState, u64_mod, get_or_zero, get_current_window, roll,
  update_current_window, increment_all, pass_buckets, should_request_pass, charge, over_limit,
  elapsed_current_window, finish,
}
use antelope_firewall.RateLimiter.History.{
  Event, Counts, log_charges, roll-window, roll-Counts, increment_all-Counts,
}

module _ {Request Value Response : Type 0} (f : F32) (null : Value) where
  -- The loop charges a prefix of the buckets, once each: all of them when it lets the request pass.
  pub record Charged (l : RateLimiter Request Value Response) (n : ℕ) (buckets : List Text)
      (current : Map ℕ) (r : Map ℕ × Bool) : Type 0 where
    pub paid : List Text
    pub spared : List Text
    pub prefix : paid ++ spared ≡ buckets
    pub result : r.0 ≡ increment_all n current paid
    pub all_paid : (r.1 ≡ false) ⊎ (spared ≡ [])

  pub pass_buckets-Charged :
      (l : RateLimiter Request Value Response) (g : Request → Value → Value → ℕ) (request : Request)
      (value json : Value) (rate_limit : ℕ) (s : WindowState) (buckets : List Text)
      (current : Map ℕ) (clock : ℕ → ℕ) (i : ℕ) (r : Map ℕ × Bool)
      → l.increment_mode ≡ before g
      → pass_buckets f null l request value json rate_limit s buckets current clock i ≡ some r
      → Charged l (g request value json) buckets current r
  unfolding pass_buckets charge increment_all
  pass_buckets-Charged l g request value json rate_limit s [] current clock i r mode h = record {
    paid = [];
    spared = [];
    prefix = refl;
    result = ground arith;
    all_paid = inr refl;
  }
  pass_buckets-Charged l g request value json rate_limit s (b ∷ bs) current clock i r mode h =
      elim (Option-cases (elapsed_current_window f (clock i) l.window_duration s.window)) [
        | inl e ↦ ground (arith, e)
        | inr (ratio, e) ↦
            elim (Bool-cases
              (over_limit f rate_limit (get_or_zero b current) (get_or_zero b s.last) ratio)) [
                | inl over ↦ record {
                  paid = b ∷ [];
                  spared = bs;
                  prefix = refl;
                  result = ground (arith, e, over, mode);
                  all_paid = inl (ground (arith, e, over, mode));
                }
                | inr under ↦
                    let ih =
                      pass_buckets-Charged l g request value json rate_limit s bs
                        (charge l.increment_mode request value json current b) clock (suc i) r mode
                        (ground (arith, e, under)) in
                    record {
                      paid = b ∷ ih.paid;
                      spared = ih.spared;
                      prefix = ap (◌∷◌ b) ih.prefix;
                      result =
                          ih.result
                          ∙ ap (λ m. increment_all (g request value json) m ih.paid)
                              (ground (arith, mode));
                      all_paid = ih.all_paid;
                    }
              ]
      ]

  abbrev pub counted : RateLimiter Request Value Response → RateLimiter Request Value Response
  counted l = record l { processed = l.processed + 1 }

  -- The two ways a call ends: refused before the buckets are read, or with the loop's result.
  pub should_request_pass_cases :
      (l : RateLimiter Request Value Response) (request : Request) (value : Value) (clock : ℕ → ℕ)
      (real : ℕ) (l' : RateLimiter Request Value Response) (passed : Bool)
      → get_current_window (clock 0) l.window_duration ≡ some real
      → should_request_pass f null l request value clock ≡ some (l', passed)
      → ((l'.state ≡ roll l.state real) × (passed ≡ false))
        ⊎ ((json : Value) × (handle_cache_option null l.cache ≡ some json)
            × (l.should_be_limited request value json ≡ true)
            × (r : Map ℕ × Bool) × (pass_buckets f null
                  (counted l)
                  request
                  value
                  json
                  (l.get_ratelimit request value json)
                  (roll l.state real)
                  (l.get_buckets l.name request value json)
                  (roll l.state real).current
                  clock
                  1
                ≡ some r)
            × (l'.state ≡ record (roll l.state real) { current = r.0 })
            × (passed ≡ r.1))
  unfolding should_request_pass update_current_window finish
  should_request_pass_cases l request value clock real l' passed now h =
      elim (Option-cases (handle_cache_option null l.cache)) [
        | inl e ↦ inl (ground (arith, e))
        | inr (json, e) ↦ elim (Bool-cases (l.should_be_limited request value json)) [
          | inl t ↦
              elim (Option-cases (
                pass_buckets f null (counted l) request value json
                  (l.get_ratelimit request value json) (roll l.state real)
                  (l.get_buckets l.name request value json) (roll l.state real).current clock 1)) [
                    | inl p ↦ ground (arith, e, t, p)
                    | inr (r, p) ↦
                        inr (json, e, t, r, p, ground (arith, e, t, p), ground (arith, e, t, p))
                  ]
          | inr t ↦ inl (ground (arith, e, t))
        ]
      ]

  -- What a call that passed the request has charged: every bucket, the amount that the mode gives.
  abbrev pub PaidAll :
      RateLimiter Request Value Response
      → (Request → Value → Value → ℕ)
      → Request
      → Value
      → ℕ
      → List Text
      → Type 0
  PaidAll l g request value n paid =
      (json : Value) × (handle_cache_option null l.cache ≡ some json)
      × (n ≡ g request value json)
      × (paid ≡ l.get_buckets l.name request value json)

  -- The window state refines the history of increments: after a call at a time whose window is no
  -- earlier than the limiter's, the buckets of the current and of the last window hold, for every
  -- key and up to the wrap around of u64, what all events so far have counted in these two windows;
  -- the new events are one amount for each bucket charged in the current window, and a call that
  -- lets the request pass has charged all its buckets.
  pub should_request_pass-Counts :
      (es : List Event) (l : RateLimiter Request Value Response) (g : Request → Value → Value → ℕ)
      (request : Request) (value : Value) (clock : ℕ → ℕ) (real : ℕ)
      (l' : RateLimiter Request Value Response) (passed : Bool)
      → l.increment_mode ≡ before g
      → ((json : Value) → g request value json < u64_mod)
      → get_current_window (clock 0) l.window_duration ≡ some real
      → l.state.window ≤ real
      → Counts es l.state
      → should_request_pass f null l request value clock ≡ some (l', passed)
      → (paid : List Text) × (n : ℕ) × Counts (log_charges real n paid es) l'.state
        × (l'.state.window ≡ real)
        × ((passed ≡ false) ⊎ PaidAll l g request value n paid)
  unfolding should_request_pass update_current_window
  should_request_pass-Counts es l g request value clock real l' passed mode small now le c h =
      elim (should_request_pass_cases l request value clock real l' passed now h) [
        | inl early ↦ (
          [],
          0,
          subst (Counts es) (sym early.0) (roll-Counts es l.state real le c),
          ap (λ (s : WindowState). s.window) early.0 ∙ roll-window l.state real,
          inl early.1,
        )
        | inr run ↦
            let s = roll l.state real in
            let n = g request value run.0 in
            let paid =
              pass_buckets-Charged (counted l) g request value run.0
                (l.get_ratelimit request value run.0) s (l.get_buckets l.name request value run.0)
                s.current clock 1 run.3 mode run.4 in
            let all =
              increment_all-Counts es s paid.paid n (small run.0)
                (roll-Counts es l.state real le c) in
            (
              paid.paid,
              n,
              subst (λ w. Counts (log_charges w n paid.paid es) l'.state) (roll-window l.state real)
                  (subst (Counts (log_charges s.window n paid.paid es))
                    (sym (run.5 ∙ ap (λ (m : Map ℕ). record s { current = m }) paid.result)) all),
              ap (λ (s : WindowState). s.window) run.5 ∙ roll-window l.state real,
              elim paid.all_paid [
                | inl e ↦ inl (run.6 ∙ e)
                | inr e ↦
                    let whole =
                      sym (append-nil paid.paid) ∙ ap (◌++◌ paid.paid) (sym e) ∙ paid.prefix in
                    inr (run.0, run.1, refl, whole)
              ],
            )
      ]
