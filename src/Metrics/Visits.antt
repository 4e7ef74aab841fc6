-- ===== src/Metrics/Visits.antt =====
-- Requests whose steps at the counters of the nodes (antelope-firewall-lib/src/firewall_builder.rs)
-- have no other request between them.
use antelope_firewall.Prelude.{
  ℕ, zero, suc, ◌≡◌, refl, sym, ap, ◌∙◌, inl, inr, Bool, true, false, ◌&&◌, ◌||◌, some, List, [],
  ◌∷◌, ◌++◌, arith, Text, codes, ◌==◌, text_eq_iff, text_eq_refl, ltb, leb, if◌then◌else◌,
  Bool-cases, contains, All-of-In,
}
use antelope_firewall.Metrics.{
  metric_name, RegistryApi, Kind, processed, success, client_error, server_error, kinds,
  node_counter, client_error_node_responses, server_error_node_responses, success_node_responses,
  NodeResult, answered, unanswered, looking, registering, waiting, finished, Metrics, inc,
  inc_static, count_both, count_status, count_step, run_count,
}
use antelope_firewall.Metrics.Registering.{
  node_counter-ne, kinds-Apart, run_count-next, register_all,
}

abbrev pub responses : Text
responses = codes "responses"

ne_of_test : (x y : Text) → (x == y) ≡ false → x ≡ y → ⊥
ne_of_test x y h e = ground (arith, text_eq_iff x y)

-- The counters of the answers of all nodes are named like those of a host `responses`.
static_metric_name : (k : Kind) → metric_name (node_counter responses k) ≡ true
unfolding node_counter
static_metric_name processed = refl
static_metric_name success = refl
static_metric_name client_error = refl
static_metric_name server_error = refl

or-false_parts : (a b : Bool) → (a || b) ≡ false → (a ≡ false) × (b ≡ false)
or-false_parts a b h = ground arith

-- What a request increments when it is answered.
unfoldable pub counted : Text → NodeResult → List Text
counted name unanswered = []
counted name (answered status) =
    if leb 200 status && ltb status 300
    then node_counter name success ∷ success_node_responses ∷ []
    else if leb 400 status && ltb status 500
    then node_counter name client_error ∷ client_error_node_responses ∷ []
    else if leb 500 status && ltb status 600
    then node_counter name server_error ∷ server_error_node_responses ∷ []
    else []

module _ (p : RegistryApi) where
  open p use {
    Registry, registered, register_counter, register_counter-new, registered-register_counter,
  }

  -- Nothing is registered for a node that the map lacks, nor for a lazy counter that was not used.
  pub record Tidy (m : Metrics p) : Type 0 where
    pub fresh :
        (x : Text) (k : Kind)
        → contains m.matching_counters x ≡ false
        → (x == responses) ≡ false
        → registered m.registry (node_counter x k) ≡ false
    pub statics :
        (k : Kind)
        → contains m.initialized (node_counter responses k) ≡ false
        → registered m.registry (node_counter responses k) ≡ false

  -- The count of an answer at a counter of all nodes.
  inc_static-Tidy :
      (k : Kind) (m : Metrics p)
      → Tidy m
      → (m' : Metrics p) × (inc_static p m (node_counter responses k) ≡ some m')
        × Tidy m'
        × (m'.matching_counters ≡ m.matching_counters)
        × (m'.incremented ≡ node_counter responses k ∷ m.incremented)
  unfolding inc_static
  inc_static-Tidy k m t =
      let name = node_counter responses k in
      elim (Bool-cases (contains m.initialized name)) [
        | inl e ↦
            (inc p m name, rw e refl, record { fresh = t.fresh; statics = t.statics }, refl, refl)
        | inr e ↦
            let (r, q) =
              register_counter-new m.registry name (static_metric_name k) (t.statics k e) in
            (
              inc p (record m { registry = r; initialized = name ∷ m.initialized }) name,
              rw (e, q) refl,
              record {
                fresh = λ x l absent other.
                    registered-register_counter m.registry r name (node_counter x l) q
                    ∙ rw
                        (node_counter-ne responses x k l
                          (λ s. ne_of_test x responses other (sym s.0)))
                        (t.fresh x l absent other);
                statics = λ l absent.
                    let (apart, before) =
                      or-false_parts (name == node_counter responses l)
                        (contains m.initialized (node_counter responses l)) absent in
                    registered-register_counter m.registry r name (node_counter responses l) q
                    ∙ rw apart (t.statics l before);
              },
              refl,
              refl,
            )
      ]

  count_both-Tidy :
      (k : Kind) (m : Metrics p) (own : Text)
      → Tidy m
      → (m' : Metrics p) × (count_both p m (node_counter responses k) own ≡ some m')
        × Tidy m'
        × (m'.matching_counters ≡ m.matching_counters)
        × (m'.incremented ≡ own ∷ node_counter responses k ∷ m.incremented)
  count_both-Tidy k m own t =
      let (m', e, t', same, log) = inc_static-Tidy k m t in
      (
        inc p m' own,
        ground (arith, e),
        record { fresh = t'.fresh; statics = t'.statics },
        same,
        ap (λ l. own ∷ l) log,
      )

  count_status-Tidy :
      (m : Metrics p) (name : Text) (status : ℕ)
      → Tidy m
      → (m' : Metrics p) × (count_status p m name status ≡ some m')
        × Tidy m'
        × (m'.matching_counters ≡ m.matching_counters)
        × (m'.incremented ≡ counted name (answered status) ++ m.incremented)
  unfolding count_status counted node_counter
  count_status-Tidy m name status t = elim (Bool-cases (leb 200 status && ltb status 300)) [
    | inl a ↦ rw a (count_both-Tidy success m (node_counter name success) t)
    | inr a ↦ elim (Bool-cases (leb 400 status && ltb status 500)) [
      | inl b ↦ rw (a, b) (count_both-Tidy client_error m (node_counter name client_error) t)
      | inr b ↦ elim (Bool-cases (leb 500 status && ltb status 600)) [
        | inl c ↦ rw (a, b, c) (count_both-Tidy server_error m (node_counter name server_error) t)
        | inr c ↦ rw (a, b, c) (m, refl, t, refl, refl)
      ]
    ]
  ]

  waiting-Tidy :
      (m : Metrics p) (name : Text) (o : NodeResult)
      → Tidy m
      → contains m.matching_counters name ≡ true
      → (m' : Metrics p) × (count_step p m (waiting name o) ≡ (m', finished))
        × Tidy m'
        × (m'.matching_counters ≡ m.matching_counters)
        × (m'.incremented ≡ counted name o ++ m.incremented)
  unfolding count_step counted
  waiting-Tidy m name unanswered t there = (m, refl, t, refl, refl)
  waiting-Tidy m name (answered status) t there =
      let (m', e, t', same, log) = count_status-Tidy m name status t in
      (m', ground (arith, there, e), t', same, log)

  run_count-finished : (n : ℕ) (m : Metrics p) → run_count p n m finished ≡ (m, finished)
  unfolding run_count count_step
  run_count-finished zero m = refl
  run_count-finished (suc n) m = run_count-finished n m

  -- What follows the look at the map or the insertion.
  finish_count :
      (n : ℕ) (m : Metrics p) (name : Text) (o : NodeResult)
      → Tidy m
      → contains m.matching_counters name ≡ true
      → (m' : Metrics p) × (run_count p (suc n) m (waiting name o) ≡ (m', finished))
        × Tidy m'
        × (contains m'.matching_counters name ≡ true)
        × (m'.incremented ≡ counted name o ++ m.incremented)
  finish_count n m name o t there =
      let (m', e, t', same, log) = waiting-Tidy m name o t there in
      (
        m',
        run_count-next p n m m' (waiting name o) finished e ∙ run_count-finished n m',
        t',
        rw same there,
        log,
      )

  -- A node that is known from here on.
  inserted-Tidy :
      (m : Metrics p) (name : Text) (r : Registry) (log : List Text)
      → Tidy m
      → (name == responses) ≡ false
      → ((other : Text)
          → ((k : Kind) → (node_counter name k == other) ≡ false)
          → registered r other ≡ registered m.registry other)
      → Tidy (record m {
        registry = r;
        matching_counters = name ∷ m.matching_counters;
        incremented = log;
      })
  inserted-Tidy m name r log t plain old = record {
    fresh = λ x l absent other.
        let (differ, before) = or-false_parts (name == x) (contains m.matching_counters x) absent in
        old (node_counter x l) (λ k. node_counter-ne name x k l (λ s. ne_of_test name x differ s.0))
        ∙ t.fresh x l before other;
    statics = λ l absent.
        old (node_counter responses l)
          (λ k. node_counter-ne name responses k l (λ s. ne_of_test name responses plain s.0))
        ∙ t.statics l absent;
  }

  looking_known :
      (m : Metrics p) (name : Text) (o : NodeResult)
      → contains m.matching_counters name ≡ true
      → count_step p m (looking name o) ≡ (inc p m (node_counter name processed), waiting name o)
  unfolding count_step
  looking_known m name o e = rw e refl

  pub looking_new :
      (m : Metrics p) (name : Text) (o : NodeResult)
      → contains m.matching_counters name ≡ false
      → count_step p m (looking name o) ≡ (m, registering name o kinds)
  unfolding count_step
  looking_new m name o e = rw e refl

  -- The two steps behind the registrations.
  inserting_run :
      (m : Metrics p) (name : Text) (o : NodeResult) (r : Registry)
      → run_count p 3 (record m { registry = r }) (registering name o [])
        ≡ run_count p 1
            (record m {
              registry = r;
              matching_counters = name ∷ m.matching_counters;
              incremented = node_counter name processed ∷ m.incremented;
            })
            (waiting name o)
  unfolding run_count count_step
  inserting_run m name o r = refl

  -- A request with no other between its steps at the counters gets through them without a panic,
  -- whether its node is new or known, if the node's name makes names of metrics and is not
  -- `responses`, which makes those of the counters of all nodes. It leaves the node known and the
  -- registry as the map says, and it increments the node's counter of requests and, for an answer
  -- with a status of success, client or server error, the two counters of that class, and no other.
  pub run_count-Tidy :
      (m : Metrics p) (name : Text) (o : NodeResult)
      → Tidy m
      → ((k : Kind) → metric_name (node_counter name k) ≡ true)
      → (name == responses) ≡ false
      → (m' : Metrics p) × (run_count p 8 m (looking name o) ≡ (m', finished))
        × Tidy m'
        × (contains m'.matching_counters name ≡ true)
        × (m'.incremented ≡ counted name o ++ node_counter name processed ∷ m.incremented)
  run_count-Tidy m name o t valid plain = elim (Bool-cases (contains m.matching_counters name)) [
    | inl known ↦
        let m1 = inc p m (node_counter name processed) in
        let (m', e, t', there', log) =
          finish_count 6 m1 name o (record { fresh = t.fresh; statics = t.statics }) known in
        (
          m',
          run_count-next p 7 m m1 (looking name o) (waiting name o) (looking_known m name o known)
              ∙ e,
          t',
          there',
          log,
        )
    | inr new ↦
        let (r, run, old, keeps, taken) =
          register_all p name o 3 m kinds kinds-Apart (All-of-In _ kinds (λ k i. valid k))
            (All-of-In _ kinds (λ k i. t.fresh name k new plain)) in
        let m1 : Metrics p = record m {
          registry = r;
          matching_counters = name ∷ m.matching_counters;
          incremented = node_counter name processed ∷ m.incremented;
        } in
        let there : contains m1.matching_counters name ≡ true = ground (arith, text_eq_refl name) in
        let (m', e, t', there', log) =
          finish_count 0 m1 name o
            (inserted-Tidy m name r (node_counter name processed ∷ m.incremented) t plain old)
            there in
        (
          m',
          run_count-next p 7 m m (looking name o) (registering name o kinds)
                (looking_new m name o new)
              ∙ (run ∙ (inserting_run m name o r ∙ e)),
          t',
          there',
          log,
        )
  ]
