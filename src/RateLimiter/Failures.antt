-- ===== src/RateLimiter/Failures.antt =====
-- A limiter that counts after the answer, as one of failures does
-- (antelope-firewall-lib/src/ratelimiter.rs): a call, and the count once the answer is there.
use antelope_firewall.Prelude.{
  ℕ, suc, ◌≤◌, ◌<◌, ◌≡◌, sym, ap, ◌∙◌, subst, inl, inr, Bool, none, some, List, [], ◌∷◌, arith,
  Text, Bool-cases, Option-cases,
}
use antelope_firewall.Prelude.Maps.{Map}
use antelope_firewall.Cache.{handle_cache_option}
use antelope_firewall.RateLimiter
use antelope_firewall.RateLimiter.{
  F32, RateLimiter, IncrementMode, before, after, WindowState, u64_mod, get_current_window, roll,
  charge, over_limit, elapsed_current_window, update_current_window, pass_buckets, finish,
  should_request_pass, post_increment, increment_all, get_or_zero,
}
use antelope_firewall.RateLimiter.Charges.{counted, should_request_pass_cases}
use antelope_firewall.RateLimiter.History.{
  Event, Counts, empty-Counts, roll-Counts, log_charges, increment_all-Counts,
}
use antelope_firewall.RateLimiter.Settings.{
  limiter_settings, should_request_pass-settings, post_increment-settings,
}

module _ {Request Value Response : Type 0} (f : F32) (null : Value) where
  -- The loop over the buckets charges nothing.
  pass_buckets-after :
      (l : RateLimiter Request Value Response) (g : Request → Value → Response → Value → ℕ)
      (request : Request) (value json : Value) (limit : ℕ) (s : WindowState) (bs : List Text)
      (current : Map ℕ) (clock : ℕ → ℕ) (i : ℕ) (r : Map ℕ × Bool)
      → l.increment_mode ≡ after g
      → pass_buckets f null l request value json limit s bs current clock i ≡ some r
      → r.0 ≡ current
  unfolding pass_buckets charge
  pass_buckets-after l g request value json limit s [] current clock i r mode e = ground (arith, e)
  pass_buckets-after l g request value json limit s (b ∷ bs) current clock i r mode e =
      elim (Option-cases (elapsed_current_window f (clock i) l.window_duration s.window)) [
        | inl q ↦ ground (arith, e, q)
        | inr (ratio, q) ↦
            elim (Bool-cases
              (over_limit f limit (get_or_zero b current) (get_or_zero b s.last) ratio)) [
                | inl t ↦ ground (arith, e, q, t, mode)
                | inr t ↦
                    pass_buckets-after l g request value json limit s bs current clock (suc i) r
                      mode (ground (arith, e, q, t, mode))
              ]
      ]

  -- A call leaves the account of the history as it is, in the window of its time.
  should_request_pass-after :
      (es : List Event) (l : RateLimiter Request Value Response)
      (g : Request → Value → Response → Value → ℕ) (request : Request) (value : Value)
      (clock : ℕ → ℕ) (real : ℕ) (l' : RateLimiter Request Value Response) (passed : Bool)
      → l.increment_mode ≡ after g
      → get_current_window (clock 0) l.window_duration ≡ some real
      → l.state.window ≤ real
      → Counts es l.state
      → should_request_pass f null l request value clock ≡ some (l', passed)
      → Counts es l'.state
  should_request_pass-after es l g request value clock real l' passed mode now le c h =
      let rolled = roll-Counts es l.state real le c in
      elim (should_request_pass_cases f null l request value clock real l' passed now h) [
        | inl early ↦ subst (Counts es) (sym early.0) rolled
        | inr run ↦
            let s = roll l.state real in
            let same : run.3.0 ≡ s.current =
              pass_buckets-after (counted f null l) g request value run.0
                (l.get_ratelimit request value run.0) s (l.get_buckets l.name request value run.0)
                s.current clock 1 run.3 mode run.4 in
            subst (Counts es) (sym (run.5 ∙ ap (λ (m : Map ℕ). record s { current = m }) same))
              rolled
      ]

  post_increment-Counts :
      (es : List Event) (l : RateLimiter Request Value Response)
      (g : Request → Value → Response → Value → ℕ) (request : Request) (value : Value)
      (response : Response)
      → l.increment_mode ≡ after g
      → l.cache ≡ none
      → g request value response null < u64_mod
      → Counts es l.state
      → Counts
          (log_charges l.state.window
            (g request value response null)
            (l.get_buckets l.name request value null)
            es)
          (post_increment null l request value response).state
  unfolding post_increment handle_cache_option
  post_increment-Counts es l g request value response mode cache small c =
      rw (cache, mode)
        (increment_all-Counts es l.state (l.get_buckets l.name request value null)
          (g request value response null) small c)

  module _ (g : Request → Value → Response → Value → ℕ) where
    -- The life of a limiter, with the log of what was counted: calls at times that do not go back
    -- to an earlier window, and answers, in any order. An answer logs its amount for each bucket, in
    -- the window that the limiter is in.
    pub data Runs (l' : RateLimiter Request Value Response) (es' : List Event)
        : RateLimiter Request Value Response → List Event → Type 0 where
      done : Runs l' es' l' es'
      call :
          {l next : RateLimiter Request Value Response} {es : List Event} (request : Request)
          (value : Value) (clock : ℕ → ℕ) (real : ℕ) (passed : Bool)
          → get_current_window (clock 0) l.window_duration ≡ some real
          → l.state.window ≤ real
          → should_request_pass f null l request value clock ≡ some (next, passed)
          → Runs l' es' next es
          → Runs l' es' l es
      answer :
          {l : RateLimiter Request Value Response} {es : List Event} (request : Request)
          (value : Value) (response : Response)
          → Runs l' es' (post_increment null l request value response) (
              log_charges l.state.window
                (g request value response null)
                (l.get_buckets l.name request value null)
                es)
          → Runs l' es' l es

    -- What a run needs of the limiter, and no step changes.
    record CountsAnswers (l : RateLimiter Request Value Response) : Type 0 where
      mode : l.increment_mode ≡ after g
      cache : l.cache ≡ none

    CountsAnswers-settings :
        (l l' : RateLimiter Request Value Response)
        → limiter_settings null l' ≡ limiter_settings null l
        → CountsAnswers l
        → CountsAnswers l'
    CountsAnswers-settings l l' same c = record {
      mode = ap (λ (k : RateLimiter Request Value Response). k.increment_mode) same ∙ c.mode;
      cache = ap (λ (k : RateLimiter Request Value Response). k.cache) same ∙ c.cache;
    }

    Runs-Counts_from :
        ((request : Request) (value : Value) (response : Response)
          → g request value response null < u64_mod)
        → (l' : RateLimiter Request Value Response) (es' : List Event)
          (l : RateLimiter Request Value Response) (es : List Event)
        → CountsAnswers l
        → Runs l' es' l es
        → Counts es l.state
        → Counts es' l'.state
    Runs-Counts_from small l' es' l es fine done c = c
    Runs-Counts_from small l' es' l es fine
          (call {next = next} request value clock real passed now le h rest) c =
        Runs-Counts_from small l' es' next es
          (CountsAnswers-settings l next
            (should_request_pass-settings null f l next request value clock passed h) fine)
          rest
          (should_request_pass-after es l g request value clock real next passed fine.mode now le c
            h)
    Runs-Counts_from small l' es' l es fine (answer request value response rest) c =
        Runs-Counts_from small l' es' (post_increment null l request value response) _
          (CountsAnswers-settings l (post_increment null l request value response)
            (post_increment-settings null l request value response) fine)
          rest
          (post_increment-Counts es l g request value response fine.mode fine.cache
            (small request value response) c)

    -- A limiter that was built to count after the answer, without a cache, holds after any calls and
    -- answers in any order, as long as no call comes in an earlier window than the one before, for
    -- every key and up to the wrap around of u64, exactly what the answers have counted: in the
    -- current buckets that of its window, in the last ones that of the window before. A call that is
    -- not answered counts nothing.
    pub Runs-Counts :
        (name : Text) (should_be_limited : Request → Value → Value → Bool)
        (get_buckets : Text → Request → Value → Value → List Text)
        (get_ratelimit : Request → Value → Value → ℕ) (window_duration now : ℕ)
        (l l' : RateLimiter Request Value Response) (es : List Event)
        → ((request : Request) (value : Value) (response : Response)
            → g request value response null < u64_mod)
        → RateLimiter.new name should_be_limited get_buckets get_ratelimit
            (after g)
            none
            window_duration
            now
          ≡ some l
        → Runs l' es l []
        → Counts es l'.state
    unfolding RateLimiter.new
    Runs-Counts name should_be_limited get_buckets get_ratelimit window_duration now l l' es small e
          run =
        elim (Option-cases (get_current_window now window_duration)) [
          | inl q ↦ ground (arith, e, q)
          | inr (w, q) ↦
              let fresh : l.state ≡ record { window = w; last = []; current = [] } =
                ground (arith, e, q) in
              Runs-Counts_from small l' es l []
                (record { mode = ground (arith, e, q); cache = ground (arith, e, q) }) run
                (subst (Counts []) (sym fresh) (empty-Counts w))
        ]
