-- ===== src/Metrics/Registering.antt =====
-- The registrations of the counters of one node
-- (antelope-firewall-lib/src/firewall_builder.rs).
use antelope_firewall.Prelude.{
  ℕ, suc, ◌≡◌, refl, ap, ◌∙◌, inl, inr, true, false, some, List, [], ◌∷◌, arith, Text, ◌==◌,
  text_eq_refl, eq_of_text, All, Bool-cases, All-mono,
}
use antelope_firewall.Metrics.{
  metric_name, RegistryApi, Kind, kinds, node_counter, NodeResult, Counting, registering, Metrics,
  count_step, run_count,
}
use antelope_firewall.Metrics.Names.{node_counter-injective}

pub node_counter-ne :
    (x y : Text) (k l : Kind)
    → ((x ≡ y) × (k ≡ l) → ⊥)
    → (node_counter x k == node_counter y l) ≡ false
node_counter-ne x y k l differ = elim (Bool-cases (node_counter x k == node_counter y l)) [
  | inr e ↦ e
  | inl e ↦ absurd (differ (node_counter-injective x y k l (eq_of_text _ _ e)))
]

abbrev pub Apart : List Kind → Type 0
Apart [] = Unit
Apart (k ∷ ks) = All (λ l. k ≡ l → ⊥) ks × Apart ks

pub kinds-Apart : Apart kinds
kinds-Apart = (
  ((λ e. cc), ((λ e. cc), ((λ e. cc), tt))),
  (((λ e. cc), ((λ e. cc), tt)), (((λ e. cc), tt), (tt, tt))),
)

All-both : (P Q : Kind → Type 0) (ks : List Kind) → All P ks → All Q ks → All (λ k. P k × Q k) ks
All-both P Q [] a b = tt
All-both P Q (k ∷ ks) a b = ((a.0, b.0), All-both P Q ks a.1 b.1)

-- So many steps more.
abbrev pub more : List Kind → ℕ → ℕ
more [] n = n
more (k ∷ ks) n = suc (more ks n)

module _ (p : RegistryApi) where
  open p use {
    Registry, registered, register_counter, register_counter-new, registered-register_counter,
  }

  pub run_count-next :
      (n : ℕ) (m m' : Metrics p) (c c' : Counting)
      → count_step p m c ≡ (m', c')
      → run_count p (suc n) m c ≡ run_count p n m' c'
  unfolding run_count
  run_count-next n m m' c c' e = ap (λ (s : Metrics p × Counting). run_count p n s.0 s.1) e

  register_step :
      (name : Text) (o : NodeResult) (m : Metrics p) (k : Kind) (ks : List Kind) (r : Registry)
      → register_counter m.registry (node_counter name k) ≡ some r
      → count_step p m (registering name o (k ∷ ks))
        ≡ (record m { registry = r }, registering name o ks)
  unfolding count_step
  register_step name o m k ks r e = ground (arith, e)

  pub now_registered :
      (r r' : Registry) (name : Text)
      → register_counter r name ≡ some r'
      → registered r' name ≡ true
  now_registered r r' name e =
      registered-register_counter r r' name name e ∙ rw (text_eq_refl name) refl

  kept_registered :
      (r r' : Registry) (name other : Text)
      → register_counter r name ≡ some r'
      → registered r other ≡ true
      → registered r' other ≡ true
  kept_registered r r' name other e there =
      registered-register_counter r r' name other e ∙ ground (arith, there)

  -- The registrations of one request.
  pub register_all :
      (name : Text) (o : NodeResult) (n : ℕ) (m : Metrics p) (ks : List Kind)
      → Apart ks
      → All (λ k. metric_name (node_counter name k) ≡ true) ks
      → All (λ k. registered m.registry (node_counter name k) ≡ false) ks
      → (r : Registry) × (run_count p (more ks n) m (registering name o ks)
          ≡ run_count p n (record m { registry = r }) (registering name o []))
        × ((other : Text)
            → ((k : Kind) → (node_counter name k == other) ≡ false)
            → registered r other ≡ registered m.registry other)
        × ((other : Text) → registered m.registry other ≡ true → registered r other ≡ true)
        × All (λ k. registered r (node_counter name k) ≡ true) ks
  unfolding run_count count_step
  register_all name o n m [] apart valid new =
      (m.registry, refl, λ other differ. refl, λ other there. there, tt)
  register_all name o n m (k ∷ ks) apart valid new =
      let (r, e) = register_counter-new m.registry (node_counter name k) valid.0 new.0 in
      let still =
        All-mono _ _ ks
          (λ l (both : (k ≡ l → ⊥) × (registered m.registry (node_counter name l) ≡ false)).
            registered-register_counter m.registry r (node_counter name k) (node_counter name l) e
            ∙ rw (node_counter-ne name name k l (λ s. both.0 s.1)) both.1)
          (All-both _ _ ks apart.0 new.1) in
      let (r', run, old, keeps, taken) =
        register_all name o n (record m { registry = r }) ks apart.1 valid.1 still in
      (
        r',
        run_count-next (more ks n) m (record m { registry = r }) (registering name o (k ∷ ks))
              (registering name o ks) (register_step name o m k ks r e)
            ∙ run,
        λ other differ.
            old other differ
            ∙ registered-register_counter m.registry r (node_counter name k) other e
            ∙ rw (differ k) refl,
        λ other there.
            keeps other (kept_registered m.registry r (node_counter name k) other e there),
        (keeps (node_counter name k) (now_registered m.registry r (node_counter name k) e), taken),
      )
