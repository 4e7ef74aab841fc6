-- ===== src/RateLimiter/Effect.antt =====
-- What one call of a rate limiter that charges attempts (antelope-firewall-lib/src/ratelimiter.rs)
-- does to the count of one of its keys.
use mathlib.Core.List.{append-nil}
use antelope_firewall.Prelude.{
  ℕ, suc, ◌+◌, ◌*◌, ◌%◌, ◌≤◌, ◌<◌, ◌≡◌, refl, sym, ap, ◌∙◌, subst, inl, inr, Bool, true, false,
  some, List, [], ◌∷◌, ◌++◌, arith, Text, ◌==◌, eq_of_text, if◌then◌else◌, Bool-cases, Option-cases,
  contains, Distinct,
}
use antelope_firewall.Prelude.Maps.{Map, get, get-insert_self}
use antelope_firewall.RateLimiter.Admission.{
  AllUnder, should_request_pass_iff, get_or_zero-increment_ne,
}
use antelope_firewall.RateLimiter.Charges.{counted, should_request_pass_cases, pass_buckets-Charged}
use antelope_firewall.RateLimiter.{
  F32, RateLimiter, before, WindowState, u64_mod, get_or_zero, increment, get_current_window, roll,
  increment_all, should_request_pass, over_limit,
}

get_or_zero-increment_self :
    (k : Text) (m : Map ℕ)
    → get_or_zero k m + 1 < u64_mod
    → get_or_zero k (increment m k 1) ≡ get_or_zero k m + 1
unfolding increment
get_or_zero-increment_self k m h = elim (Option-cases (get k m)) [
  | inl e ↦ ground (arith, e, get-insert_self k 1 m)
  | inr (v, e) ↦ ground (arith, e, get-insert_self k ((v + 1) % u64_mod) m)
]

get_or_zero-increment_all_ne :
    (b : Text) (bs : List Text) (m : Map ℕ)
    → contains bs b ≡ false
    → get_or_zero b (increment_all 1 m bs) ≡ get_or_zero b m
unfolding increment_all
get_or_zero-increment_all_ne b [] m h = refl
get_or_zero-increment_all_ne b (k ∷ bs) m h =
    get_or_zero-increment_all_ne b bs (increment m k 1) (ground arith)
    ∙ get_or_zero-increment_ne k b 1 m (ground arith)

-- A charge of different buckets adds one to each of them.
get_or_zero-increment_all :
    (b : Text) (bs : List Text) (m : Map ℕ)
    → Distinct bs
    → get_or_zero b m + 1 < u64_mod
    → get_or_zero b (increment_all 1 m bs)
      ≡ (if contains bs b then get_or_zero b m + 1 else get_or_zero b m)
unfolding increment_all
get_or_zero-increment_all b [] m d h = refl
get_or_zero-increment_all b (k ∷ bs) m d h = elim (Bool-cases (k == b)) [
  | inl same ↦
      let e = eq_of_text k b same in
      let absent : contains bs b ≡ false = ap (contains bs) (sym e) ∙ d.0 in
      let self : get_or_zero b (increment m k 1) ≡ get_or_zero b m + 1 =
        subst (λ t. get_or_zero b (increment m t 1) ≡ get_or_zero b m + 1) (sym e)
          (get_or_zero-increment_self b m h) in
      let rest = get_or_zero-increment_all_ne b bs (increment m k 1) absent in
      ground (arith, same, self, rest)
  | inr other ↦
      let ne = get_or_zero-increment_ne k b 1 m other in
      ground (arith, other, ne, get_or_zero-increment_all b bs (increment m k 1) d.1)
]

abbrev pub ceiling : ℕ → ℕ
ceiling limit = 2 * limit % u64_mod

Distinct-prefix : (xs ys zs : List Text) → xs ++ ys ≡ zs → Distinct zs → Distinct xs
Distinct-prefix [] ys zs e d = tt
Distinct-prefix (x ∷ xs) ys [] e d = cc
Distinct-prefix (x ∷ xs) ys (z ∷ zs) e d =
    let q : xs ++ ys ≡ zs = ground arith in
    let p : x ≡ z = ground arith in
    (
      fewer xs
          (subst (λ t. contains (xs ++ ys) t ≡ false) (sym p) (ap (λ t. contains t z) q ∙ d.0)),
      Distinct-prefix xs ys zs q d.1,
    )
  where
    fewer : (ws : List Text) → contains (ws ++ ys) x ≡ false → contains ws x ≡ false
    fewer [] h = refl
    fewer (w ∷ ws) h = ground (arith, fewer ws)

module _ {Request Value Response : Type 0} (f : F32) (null : Value)
    (l : RateLimiter Request Value Response) (b : Text) (limit : ℕ) where
  -- A call in the limiter's window, for a request that charges one to the key `b`.
  pub record Charges (request : Request) (value : Value) (clock : ℕ → ℕ) : Type 0 where
    pub now : get_current_window (clock 0) l.window_duration ≡ some l.state.window
    pub one :
        (g : Request → Value → Value → ℕ) × (l.increment_mode ≡ before g)
        × ((json : Value) → g request value json ≡ 1)
    pub rate : (json : Value) → l.get_ratelimit request value json ≡ limit
    pub distinct : (json : Value) → Distinct (l.get_buckets l.name request value json)
    pub holds : (json : Value) → contains (l.get_buckets l.name request value json) b ≡ true

  AllUnder-ceiling :
      (request : Request) (value json : Value) (s : WindowState) (bs : List Text) (m : Map ℕ)
      (clock : ℕ → ℕ) (i : ℕ)
      → AllUnder f null l request value json limit s bs m clock i
      → contains bs b ≡ true
      → get_or_zero b m < ceiling limit
  unfolding over_limit
  AllUnder-ceiling request value json s [] m clock i u h = cc
  AllUnder-ceiling request value json s (k ∷ bs) m clock i u h = elim (Bool-cases (k == b)) [
    | inl same ↦
        subst (λ t. get_or_zero t m < ceiling limit) (eq_of_text k b same) (ground (arith, u.0.2))
    | inr other ↦
        AllUnder-ceiling request value json s bs m clock (suc i) u.1 (ground (arith, other))
  ]

  roll_same : roll l.state l.state.window ≡ l.state
  unfolding roll
  roll_same = ground arith

  abbrev count : RateLimiter Request Value Response → ℕ
  count l' = get_or_zero b l'.state.current

  -- What a call in the window does to the count of the key.
  pub data Effect (l' : RateLimiter Request Value Response) (passed : Bool) : Type 0 where
    let_through :
        passed ≡ true
        → get_or_zero b l.state.current < ceiling limit
        → get_or_zero b l'.state.current ≡ get_or_zero b l.state.current + 1
        → Effect l' passed
    turned_away :
        passed ≡ false
        → get_or_zero b l.state.current ≤ get_or_zero b l'.state.current
        → get_or_zero b l'.state.current ≤ get_or_zero b l.state.current + 1
        → Effect l' passed

  module _ (request : Request) (value : Value) (clock : ℕ → ℕ) (c : Charges request value clock)
      (room : count l + 1 < u64_mod) (l' : RateLimiter Request Value Response) where
    passed_count :
        should_request_pass f null l request value clock ≡ some (l', true) → count l < ceiling limit
    passed_count h =
        let u =
          (should_request_pass_iff f null l request value clock l.state.window c.now c.distinct).0
            (l', h) in
        subst (λ (t : WindowState). get_or_zero b t.current < ceiling limit) roll_same
          (AllUnder-ceiling request value u.0 (roll l.state l.state.window)
            (l.get_buckets l.name request value u.0) (roll l.state l.state.window).current clock 1
            (subst
              (λ t.
                AllUnder f null l request value u.0 t (roll l.state l.state.window)
                  (l.get_buckets l.name request value u.0) (roll l.state l.state.window).current
                  clock 1)
              (c.rate u.0) u.3)
            (c.holds u.0))

    count_paid :
        (paid : List Text)
        → Distinct paid
        → l'.state ≡ record (roll l.state l.state.window) {
          current = increment_all 1 (roll l.state l.state.window).current paid;
        }
        → count l' ≡ (if contains paid b then count l + 1 else count l)
    count_paid paid d e =
        ap (λ (t : WindowState). get_or_zero b t.current) e
        ∙ ap (λ (t : WindowState). get_or_zero b (increment_all 1 t.current paid)) roll_same
        ∙ get_or_zero-increment_all b paid l.state.current d room

    pub Effect-call :
        (passed : Bool)
        → should_request_pass f null l request value clock ≡ some (l', passed)
        → (l'.state.window ≡ l.state.window) × Effect l' passed
    Effect-call passed h =
        elim (should_request_pass_cases f null l request value clock l.state.window l' passed c.now
          h) [
            | inl early ↦
                let e = early.0 ∙ roll_same in
                (
                  ap (λ (s : WindowState). s.window) e,
                  turned_away early.1
                      (ground (arith, ap (λ (s : WindowState). get_or_zero b s.current) e))
                      (ground (arith, ap (λ (s : WindowState). get_or_zero b s.current) e)),
                )
            | inr run ↦
                let s = roll l.state l.state.window in
                let paid =
                  pass_buckets-Charged f null (counted f null l) c.one.0 request value run.0
                    (l.get_ratelimit request value run.0) s
                    (l.get_buckets l.name request value run.0) s.current clock 1 run.3 c.one.1
                    run.4 in
                let v =
                  count_paid paid.paid
                    (Distinct-prefix paid.paid paid.spared
                      (l.get_buckets l.name request value run.0) paid.prefix (c.distinct run.0))
                    (run.5
                      ∙ ap (λ (m : Map ℕ). record s { current = m })
                          (paid.result
                            ∙ ap (λ (n : ℕ). increment_all n s.current paid.paid)
                                (c.one.2 run.0))) in
                (
                  ap (λ (t : WindowState). t.window) run.5
                      ∙ ap (λ (t : WindowState). t.window) roll_same,
                  elim (Bool-cases passed) [
                    | inl t ↦
                        let all : contains paid.paid b ≡ true = elim paid.all_paid [
                          | inl e ↦ cc (e, run.6, t)
                          | inr e ↦
                              ap (λ (xs : List Text). contains xs b)
                                (sym (append-nil paid.paid)
                                  ∙ ap (◌++◌ paid.paid) (sym e)
                                  ∙ paid.prefix)
                              ∙ c.holds run.0
                        ] in
                        let_through t (passed_count (h ∙ ap (λ (q : Bool). some (l', q)) t))
                          (ground (arith, v, all))
                    | inr t ↦ turned_away t (ground (arith, v)) (ground (arith, v))
                  ],
                )
          ]
