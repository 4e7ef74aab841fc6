-- ===== src/Metrics/Race.antt =====
-- Requests that meet at the counters of a node that is new
-- (antelope-firewall-lib/src/firewall_builder.rs): between the look at the map and the insertion no
-- lock is held.
use antelope_firewall.Prelude.{
  ◌≡◌, ap, ◌∙◌, true, false, [], ◌∷◌, arith, Text, ◌==◌, contains, All-of-In,
}
use antelope_firewall.Metrics.{
  metric_name, RegistryApi, Kind, processed, success, client_error, server_error, kinds,
  node_counter, NodeResult, Counting, looking, registering, inserting, finished, crashed, Metrics,
  count_step, run_count,
}
use antelope_firewall.Metrics.Visits.{responses, Tidy, run_count-Tidy, looking_new}
use antelope_firewall.Metrics.Registering.{
  register_all, now_registered, kinds-Apart, run_count-next,
}

module _ (p : RegistryApi) where
  open p use {
    Registry, registered, register_counter, register_counter-new, register_counter-again,
    registered-register_counter,
  }

  -- Two requests look at the map one after the other, then the first goes on to its first
  -- registration, and then the second.
  unfoldable pub race : Metrics p → Counting → Counting → Counting × Counting
  race m a b =
      let (m1, a1) = count_step p m a in
      let (m2, b1) = count_step p m1 b in
      let (m3, a2) = count_step p m2 a1 in let (m4, b2) = count_step p m3 b1 in (a2, b2)

  -- The same, but the second goes on first.
  unfoldable pub race_back : Metrics p → Counting → Counting → Counting × Counting
  race_back m a b =
      let (m1, a1) = count_step p m a in
      let (m2, b1) = count_step p m1 b in
      let (m3, b2) = count_step p m2 b1 in let (m4, a2) = count_step p m3 a1 in (a2, b2)

  race-registered :
      (m : Metrics p) (name : Text) (o o' : NodeResult)
      → contains m.matching_counters name ≡ false
      → metric_name (node_counter name processed) ≡ true
      → registered m.registry (node_counter name processed) ≡ false
      → race m (looking name o) (looking name o')
        ≡ (registering name o (success ∷ client_error ∷ server_error ∷ []), crashed)
  unfolding race count_step
  race-registered m name o o' absent valid new =
      let first = node_counter name processed in
      let (r, e) = register_counter-new m.registry first valid new in
      let taken : registered r first ≡ true = now_registered p m.registry r first e in
      ground (arith, absent, e, register_counter-again r first taken)

  race_back-registered :
      (m : Metrics p) (name : Text) (o o' : NodeResult)
      → contains m.matching_counters name ≡ false
      → metric_name (node_counter name processed) ≡ true
      → registered m.registry (node_counter name processed) ≡ false
      → race_back m (looking name o) (looking name o')
        ≡ (crashed, registering name o' (success ∷ client_error ∷ server_error ∷ []))
  unfolding race_back count_step
  race_back-registered m name o o' absent valid new =
      let first = node_counter name processed in
      let (r, e) = register_counter-new m.registry first valid new in
      let taken : registered r first ≡ true = now_registered p m.registry r first e in
      ground (arith, absent, e, register_counter-again r first taken)

  -- For every node that is not in the map, whose name makes names of metrics and is not that of the
  -- counters of all nodes, in a registry with nothing for nodes that the map lacks: two requests to it,
  -- one after the other, both get through their counters; but when both look at the map before
  -- either has registered a counter, and then each makes its first registration, the one that comes
  -- to it second panics, whichever of the two that is.
  pub run_count-race :
      (m : Metrics p) (name : Text) (o o' : NodeResult)
      → Tidy p m
      → ((k : Kind) → metric_name (node_counter name k) ≡ true)
      → (name == responses) ≡ false
      → contains m.matching_counters name ≡ false
      → ((m' : Metrics p) × (m'' : Metrics p) × (run_count p 8 m (looking name o) ≡ (m', finished))
          × (run_count p 8 m' (looking name o') ≡ (m'', finished)))
        × ((race m (looking name o) (looking name o')).1 ≡ crashed)
        × ((race_back m (looking name o) (looking name o')).0 ≡ crashed)
  run_count-race m name o o' t valid plain absent =
      let (m', run, t', there, log) = run_count-Tidy p m name o t valid plain in
      let (m'', run', t'', there', log') = run_count-Tidy p m' name o' t' valid plain in
      (
        (m', m'', run, run'),
        ap (λ (s : Counting × Counting). s.1)
            (race-registered m name o o' absent (valid processed)
              (t.fresh name processed absent plain)),
        ap (λ (s : Counting × Counting). s.0)
            (race_back-registered m name o o' absent (valid processed)
              (t.fresh name processed absent plain)),
      )

  again-crashed :
      (m : Metrics p) (name : Text) (o : NodeResult)
      → contains m.matching_counters name ≡ false
      → registered m.registry (node_counter name processed) ≡ true
      → run_count p 2 m (looking name o) ≡ (m, crashed)
  unfolding run_count count_step
  again-crashed m name o absent taken =
      ground (arith, absent, register_counter-again m.registry (node_counter name processed) taken)

  -- For every node that is not in the map, whose name makes names of metrics and is not that of the
  -- counters of all nodes, in a registry with nothing for nodes that the map lacks: when a request to
  -- it is dropped while it waits to insert its counters, as by
  -- a client that hangs up, then every later request to the node panics at its first registration and
  -- changes nothing, so that none of them ever gets through.
  pub run_count-dropped :
      (m : Metrics p) (name : Text) (o : NodeResult)
      → Tidy p m
      → ((k : Kind) → metric_name (node_counter name k) ≡ true)
      → (name == responses) ≡ false
      → contains m.matching_counters name ≡ false
      → (m' : Metrics p) × (run_count p 6 m (looking name o) ≡ (m', inserting name o))
        × ((o' : NodeResult) → run_count p 2 m' (looking name o') ≡ (m', crashed))
  unfolding run_count count_step
  run_count-dropped m name o t valid plain absent =
      let (r, run, old, keeps, taken) =
        register_all p name o 1 m kinds kinds-Apart (All-of-In _ kinds (λ k i. valid k))
          (All-of-In _ kinds (λ k i. t.fresh name k absent plain)) in
      let m' : Metrics p = record m {
        registry = r;
        incremented = node_counter name processed ∷ m.incremented;
      } in
      (
        m',
        run_count-next p 5 m m (looking name o) (registering name o kinds)
              (looking_new p m name o absent)
            ∙ run,
        λ o'. again-crashed m' name o' absent taken.0,
      )
