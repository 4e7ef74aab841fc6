-- ===== src/RateLimiter/Ceiling.antt =====
-- The ceiling of a rate limiter that charges attempts (antelope-firewall-lib/src/ratelimiter.rs):
-- whatever the floating point estimate says, one key passes at most `2 * limit` requests a window.

use antelope_firewall.Prelude.{
  ℕ, suc, ◌+◌, ◌-◌, ◌≤◌, ◌<◌, ◌≡◌, sym, ap, ◌∙◌, subst, inl, inr, Bool, Option, none, some, List,
  [], ◌∷◌, arith, Text, if◌then◌else◌, length, All, Option-cases, All-mono,
}
use antelope_firewall.RateLimiter.Effect.{
  ceiling, Charges, Effect, let_through, turned_away, Effect-call,
}
use antelope_firewall.RateLimiter.{
  F32, RateLimiter, u64_mod, get_or_zero, should_request_pass, finish,
}

pub record Call (Request Value : Type 0) : Type 0 where
  pub request : Request
  pub value : Value
  pub clock : ℕ → ℕ

module _ {Request Value Response : Type 0} (f : F32) (null : Value) where
  -- A call changes the window state and the counters, never the configuration.
  should_request_pass-config :
      (l : RateLimiter Request Value Response) (request : Request) (value : Value) (clock : ℕ → ℕ)
      (l' : RateLimiter Request Value Response) (passed : Bool)
      → should_request_pass f null l request value clock ≡ some (l', passed)
      → l' ≡ record l {
        state = l'.state;
        processed = l'.processed;
        denied = l'.denied;
        accepted = l'.accepted;
      }
  unfolding should_request_pass finish
  should_request_pass-config l request value clock l' passed h = ground arith

  -- A sequence of calls, and how many of them passed.
  unfoldable pub run_calls :
      RateLimiter Request Value Response
      → List (Call Request Value)
      → Option (RateLimiter Request Value Response × ℕ)
  run_calls l [] = some (l, 0)
  run_calls l (c ∷ cs) = elim (should_request_pass f null l c.request c.value c.clock) [
    | none ↦ none
    | some (l', passed) ↦ elim (run_calls l' cs) [
      | none ↦ none
      | some (l'', n) ↦ some (l'', if passed then suc n else n)
    ]
  ]

  module _ (b : Text) (limit : ℕ) where
    abbrev pub AllCharge : RateLimiter Request Value Response → List (Call Request Value) → Type 0
    AllCharge l cs =
        All (λ (c : Call Request Value). Charges f null l b limit c.request c.value c.clock) cs

    AllCharge-call :
        (l l' : RateLimiter Request Value Response) (cs : List (Call Request Value))
        → l' ≡ record l {
          state = l'.state;
          processed = l'.processed;
          denied = l'.denied;
          accepted = l'.accepted;
        }
        → l'.state.window ≡ l.state.window
        → AllCharge l cs
        → AllCharge l' cs
    AllCharge-call l l' cs e w h =
        subst (λ x. AllCharge x cs) (sym e)
          (All-mono _ _ cs
            (λ (c : Call Request Value) k. record {
              now = k.now ∙ ap (λ (n : ℕ). some n) (sym w);
              one = k.one;
              rate = k.rate;
              distinct = k.distinct;
              holds = k.holds;
            })
            h)

    Effect-bound :
        (l m : RateLimiter Request Value Response) (passed : Bool) (k n len : ℕ)
        → Effect f null l b limit m passed
        → get_or_zero b l.state.current + suc len < u64_mod
        → (get_or_zero b m.state.current + len < u64_mod
            → k ≤ ceiling limit - get_or_zero b m.state.current)
        → n ≡ (if passed then suc k else k)
        → n ≤ ceiling limit - get_or_zero b l.state.current
    Effect-bound l m passed k n len (let_through t lt e) room rest total =
        let r = rest (omega arith) in ground arith
    Effect-bound l m passed k n len (turned_away t le up) room rest total =
        let r = rest (omega arith) in ground arith

    -- Whatever the floating point operations compute, of calls within one window that each charge
    -- one to a key under one limit, while the key's count stays below the wrap around of u64: no
    -- more pass than `2 * limit` (in u64) less what the key was charged before.
    pub run_calls-ceiling :
        (l : RateLimiter Request Value Response) (cs : List (Call Request Value))
        (l' : RateLimiter Request Value Response) (n : ℕ)
        → AllCharge l cs
        → get_or_zero b l.state.current + length cs < u64_mod
        → run_calls l cs ≡ some (l', n)
        → n ≤ ceiling limit - get_or_zero b l.state.current
    unfolding run_calls
    run_calls-ceiling l [] l' n every room h = ground arith
    run_calls-ceiling l (c ∷ cs) l' n every room h =
        elim (Option-cases (should_request_pass f null l c.request c.value c.clock)) [
          | inl e ↦ ground (arith, e)
          | inr ((m, passed), e) ↦ elim (Option-cases (run_calls m cs)) [
            | inl q ↦ ground (arith, e, q)
            | inr ((l'', k), q) ↦
                let (w, effect) =
                  Effect-call f null l b limit c.request c.value c.clock every.0 (omega arith) m
                    passed e in
                let config = should_request_pass-config l c.request c.value c.clock m passed e in
                let rest = λ (r : get_or_zero b m.state.current + length cs < u64_mod).
                  run_calls-ceiling m cs l'' k (AllCharge-call l m cs config w every.1) r q in
                let total : n ≡ (if passed then suc k else k) = ground (arith, e, q) in
                Effect-bound l m passed k n (length cs) effect room rest total
          ]
        ]
