-- ===== src/Metrics/Series.antt =====
-- Requests whose steps at the counters of the nodes (antelope-firewall-lib/src/firewall_builder.rs)
-- come one request after the other, each to a host of its own.
use antelope_firewall.Prelude.{
  ℕ, ◌≡◌, refl, ap, ◌∙◌, inl, inr, Bool, true, false, Option, none, some, List, [], ◌∷◌, ◌++◌,
  arith, Text, codes, ◌==◌, if◌then◌else◌, all, All, Bool-cases,
}
use antelope_firewall.Metrics.{
  metric_name, RegistryApi, url_name, Kind, processed, node_counter, NodeResult, Counting, looking,
  registering, inserting, waiting, finished, crashed, Metrics, run_count,
}
use antelope_firewall.Metrics.Names.{is_ascii, IsAlphanumeric, node_counter-metric_name}
use antelope_firewall.Metrics.Visits.{responses, counted, Tidy, run_count-Tidy}

-- The host of the url that a request goes to, and what comes of it.
abbrev pub Exchanged : Type 0
Exchanged = Option Text × NodeResult

abbrev pub IsHost : (ℕ → Bool) → Option Text → Type 0
IsHost is_alphanumeric none = Unit
IsHost is_alphanumeric (some host) =
    (is_ascii host ≡ true) × ((url_name is_alphanumeric (some host) == responses) ≡ false)

module _ (p : RegistryApi) (is_alphanumeric : ℕ → Bool) where
  abbrev survived : Counting → Bool
  survived finished = true
  survived crashed = false
  survived (looking name o) = false
  survived (registering name o ks) = false
  survived (inserting name o) = false
  survived (waiting name o) = false

  -- The metrics after the requests, if none of them panics.
  unfoldable pub count_all : Metrics p → List Exchanged → Option (Metrics p)
  count_all m [] = some m
  count_all m ((host, o) ∷ vs) =
      let (m', c) = run_count p 8 m (looking (url_name is_alphanumeric host) o) in
      let rest = count_all m' vs in if survived c then rest else none

  -- What the requests increment, the last first.
  unfoldable pub log_of : List Exchanged → List Text → List Text
  log_of [] log = log
  log_of ((host, o) ∷ vs) log =
      let name = url_name is_alphanumeric host in
      log_of vs (counted name o ++ node_counter name processed ∷ log)

  IsHost-metric_name :
      (host : Option Text) (k : Kind)
      → IsAlphanumeric is_alphanumeric
      → IsHost is_alphanumeric host
      → metric_name (node_counter (url_name is_alphanumeric host) k) ≡ true
  unfolding url_name
  IsHost-metric_name none k same i =
      node_counter-metric_name is_alphanumeric (codes "unknown") k same refl
  IsHost-metric_name (some host) k same i = node_counter-metric_name is_alphanumeric host k same i.0

  unknown_host : (url_name is_alphanumeric none == responses) ≡ false
  unfolding url_name ◌==◌
  unknown_host = elim (Bool-cases (is_alphanumeric b'u')) [ inl e ↦ rw e refl | inr e ↦ rw e refl ]

  IsHost-plain :
      (host : Option Text)
      → IsHost is_alphanumeric host
      → (url_name is_alphanumeric host == responses) ≡ false
  IsHost-plain none i = unknown_host
  IsHost-plain (some host) i = i.1

  -- However many requests go to however many hosts, where the steps of no two of them are interleaved,
  -- each host is ASCII, none is named like the counters of all nodes, and nothing is registered at the
  -- start for a node that the map lacks or for a lazy counter that was not used: no request panics at
  -- the counters, that state of the registry is kept, and what is incremented is, request by request,
  -- the node's counter of requests and the two counters of the class of its answer.
  pub count_all-log_of :
      (m : Metrics p) (vs : List Exchanged)
      → IsAlphanumeric is_alphanumeric
      → Tidy p m
      → All (λ (v : Exchanged). IsHost is_alphanumeric v.0) vs
      → (m' : Metrics p) × (count_all m vs ≡ some m')
        × Tidy p m'
        × (m'.incremented ≡ log_of vs m.incremented)
  unfolding count_all log_of
  count_all-log_of m [] same t hosts = (m, refl, t, refl)
  count_all-log_of m ((host, o) ∷ vs) same t hosts =
      let name = url_name is_alphanumeric host in
      let (m1, run, t1, there, log1) =
        run_count-Tidy p m name o t (λ k. IsHost-metric_name host k same hosts.0)
          (IsHost-plain host hosts.0) in
      let (m', all, t', log) = count_all-log_of m1 vs same t1 hosts.1 in
      (m', ground (arith, run, all), t', log ∙ ap (log_of vs) log1)
