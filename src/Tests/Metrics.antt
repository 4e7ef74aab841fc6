-- ===== src/Tests/Metrics.antt =====
-- Examples of requests at the counters of the nodes
-- (antelope-firewall-lib/src/firewall_builder.rs), with a registry that is the list of its names.
use antelope_firewall.Prelude.{
  ◌≡◌, refl, inl, inr, true, false, not, ◌&&◌, Option, none, some, List, [], ◌∷◌, arith, Text,
  codes, ◌==◌, if◌then◌else◌, Bool-cases, contains,
}
use antelope_firewall.Config.NodeSet.{is_ascii_alphanumeric}
use antelope_firewall.Metrics.{
  metric_name, RegistryApi, url_name, Kind, processed, success, client_error, server_error,
  node_counter, NodeResult, answered, unanswered, looking, inserting, finished, crashed, Metrics,
  run_count,
}
use antelope_firewall.Metrics.Visits.{responses, Tidy}
use antelope_firewall.Metrics.Series.{Exchanged, count_all, log_of, count_all-log_of}
use antelope_firewall.Metrics.Race.{race, race_back, run_count-race, run_count-dropped}

abbrev put : List Text → Text → Option (List Text)
put r name = if metric_name name && not (contains r name) then some (name ∷ r) else none

put_new :
    (r : List Text) (name : Text)
    → metric_name name ≡ true
    → contains r name ≡ false
    → (r' : List Text) × (put r name ≡ some r')
put_new r name valid absent = (name ∷ r, rw (valid, absent) refl)

put_again : (r : List Text) (name : Text) → contains r name ≡ true → put r name ≡ none
put_again r name there = elim (Bool-cases (metric_name name)) [
  | inl e ↦ rw (e, there) refl
  | inr e ↦ rw e refl
]

contains-put :
    (r r' : List Text) (name other : Text)
    → put r name ≡ some r'
    → contains r' other ≡ (if name == other then true else contains r other)
contains-put r r' name other e = ground (arith, e)

abbrev registries : RegistryApi
registries = record {
  Registry = List Text;
  registered = contains;
  register_counter = put;
  register_counter-new = put_new;
  register_counter-again = put_again;
  registered-register_counter = contains-put;
}

abbrev fresh : Metrics registries
fresh = record { registry = []; matching_counters = []; initialized = []; incremented = [] }

fresh-Tidy : Tidy registries fresh
fresh-Tidy = record { fresh = λ x k absent other. refl; statics = λ k absent. refl }

abbrev exchanges : List Exchanged
exchanges =
    (some (codes "eos.greymass.com"), answered 200)
    ∷ (none, unanswered)
    ∷ (some (codes "eos.greymass.com"), answered 404)
    ∷ []

count_all-log_of_example :
    (m' : Metrics registries) × (count_all registries is_ascii_alphanumeric fresh exchanges
      ≡ some m')
    × Tidy registries m'
    × (m'.incremented ≡ log_of registries is_ascii_alphanumeric exchanges [])
unfolding url_name ◌==◌
count_all-log_of_example =
    count_all-log_of registries is_ascii_alphanumeric fresh exchanges (λ c small. refl) fresh-Tidy
      ((refl, refl), (tt, ((refl, refl), tt)))

abbrev name : Text
name = codes "eos_greymass_com"

name-metric_name : (k : Kind) → metric_name (node_counter name k) ≡ true
unfolding node_counter
name-metric_name processed = refl
name-metric_name success = refl
name-metric_name client_error = refl
name-metric_name server_error = refl

plain : (name == responses) ≡ false
unfolding ◌==◌
plain = refl

run_count-race_example :
    ((m' : Metrics registries) × (m'' : Metrics registries) × (run_count registries 8 fresh
          (looking name (answered 200))
        ≡ (m', finished))
      × (run_count registries 8 m' (looking name unanswered) ≡ (m'', finished)))
    × ((race registries fresh (looking name (answered 200)) (looking name unanswered)).1 ≡ crashed)
    × ((race_back registries fresh (looking name (answered 200)) (looking name unanswered)).0
        ≡ crashed)
run_count-race_example =
    run_count-race registries fresh name (answered 200) unanswered fresh-Tidy name-metric_name plain
      refl

run_count-dropped_example :
    (m' : Metrics registries) × (run_count registries 6 fresh (looking name (answered 200))
      ≡ (m', inserting name (answered 200)))
    × ((o' : NodeResult) → run_count registries 2 m' (looking name o') ≡ (m', crashed))
run_count-dropped_example =
    run_count-dropped registries fresh name (answered 200) fresh-Tidy name-metric_name plain refl
