-- ===== src/Metrics.antt =====
-- The counters of the nodes in `handle_request` (antelope-firewall-lib/src/firewall_builder.rs) and
-- the counters of all nodes (antelope-firewall-lib/src/prometheus.rs). A counter is known by the name
-- under which it is registered; the registry is that of the crate prometheus.
pub mod Names
pub mod Registering
pub mod Visits
pub mod Series
pub mod Race
use antelope_firewall.Prelude.{
  ℕ, zero, suc, ◌≡◌, Bool, true, false, not, ◌&&◌, ◌||◌, Option, none, some, List, [], ◌∷◌, ◌++◌,
  map, Text, codes, ◌==◌, ltb, leb, eqb, if◌then◌else◌, all, contains,
}

-- prometheus's rule for the name of a metric: letters, digits, `_` and `:`, no digit first.
abbrev pub is_letter : ℕ → Bool
is_letter c = leb b'a' c && leb c b'z' || leb b'A' c && leb c b'Z' || eqb c b'_' || eqb c b':'

abbrev pub is_digit : ℕ → Bool
is_digit c = leb b'0' c && leb c b'9'

abbrev pub metric_name : Text → Bool
metric_name [] = false
metric_name (c ∷ cs) = is_letter c && all (λ d. is_letter d || is_digit d) cs

-- The registry: a new name of that form is accepted, one that is there is refused.
pub record RegistryApi : Type 1 where
  pub Registry : Type 0
  pub registered : Registry → Text → Bool
  pub register_counter : Registry → Text → Option Registry
  pub register_counter-new :
      (r : Registry) (name : Text)
      → metric_name name ≡ true
      → registered r name ≡ false
      → (r' : Registry) × (register_counter r name ≡ some r')
  pub register_counter-again :
      (r : Registry) (name : Text) → registered r name ≡ true → register_counter r name ≡ none
  pub registered-register_counter :
      (r r' : Registry) (name other : Text)
      → register_counter r name ≡ some r'
      → registered r' other ≡ (if name == other then true else registered r other)

-- The name of a node among the metrics; `is_alphanumeric` is that of `char`.
unfoldable pub url_name : (ℕ → Bool) → Option Text → Text
url_name is_alphanumeric host =
    map (λ c. if not (eqb c b'_') && not (is_alphanumeric c) then b'_' else c)
      (elim host [ none ↦ codes "unknown" | some name ↦ name ])

-- The four counters of a node.
pub data Kind : Type 0 where
  processed success client_error server_error : Kind

abbrev pub suffix : Kind → Text
suffix processed = codes "_processed"
suffix success = codes "_success"
suffix client_error = codes "_client_error"
suffix server_error = codes "_server_error"

unfoldable pub node_counter : Text → Kind → Text
node_counter name kind = codes "node_" ++ (name ++ suffix kind)

abbrev pub kinds : List Kind
kinds = processed ∷ success ∷ client_error ∷ server_error ∷ []

-- The counters of the answers of all nodes.
abbrev pub client_error_node_responses : Text
client_error_node_responses = codes "node_responses_client_error"

abbrev pub server_error_node_responses : Text
server_error_node_responses = codes "node_responses_server_error"

abbrev pub success_node_responses : Text
success_node_responses = codes "node_responses_success"

-- What the exchange with the node came to.
pub data NodeResult : Type 0 where
  answered : ℕ → NodeResult
  unanswered : NodeResult

-- Where a request is with its counters.
pub data Counting : Type 0 where
  looking : Text → NodeResult → Counting
  registering : Text → NodeResult → List Kind → Counting
  inserting : Text → NodeResult → Counting
  waiting : Text → NodeResult → Counting
  finished : Counting
  crashed : Counting

module _ (p : RegistryApi) where
  open p use {Registry, register_counter}

  -- The registry, the keys of MATCHING_COUNTERS, the lazy counters that were made, and what was
  -- incremented, the last first.
  pub record Metrics : Type 0 where
    pub registry : Registry
    pub matching_counters : List Text
    pub initialized : List Text
    pub incremented : List Text

  abbrev pub inc : Metrics → Text → Metrics
  inc m name = record m { incremented = name ∷ m.incremented }

  -- A lazy static counter is registered when it is first used; `none` is a panic.
  unfoldable pub inc_static : Metrics → Text → Option Metrics
  inc_static m name =
      if contains m.initialized name
      then some (inc m name)
      else elim (register_counter m.registry name) [
        | none ↦ none
        | some r ↦ some (inc (record m { registry = r; initialized = name ∷ m.initialized }) name)
      ]

  -- The counter of all nodes, and then that of the node.
  abbrev pub count_both : Metrics → Text → Text → Option Metrics
  count_both m static own = elim (inc_static m static) [ none ↦ none | some m' ↦ some (inc m' own) ]

  unfoldable pub count_status : Metrics → Text → ℕ → Option Metrics
  count_status m name status =
      if leb 200 status && ltb status 300
      then count_both m success_node_responses (node_counter name success)
      else if leb 400 status && ltb status 500
      then count_both m client_error_node_responses (node_counter name client_error)
      else if leb 500 status && ltb status 600
      then count_both m server_error_node_responses (node_counter name server_error)
      else some m

  -- What happens under one lock: a look at the map, one registration, the insertion, and the count
  -- of the answer.
  unfoldable pub count_step : Metrics → Counting → Metrics × Counting
  count_step m (looking name o) =
      if contains m.matching_counters name
      then (inc m (node_counter name processed), waiting name o)
      else (m, registering name o kinds)
  count_step m (registering name o (k ∷ ks)) =
      elim (register_counter m.registry (node_counter name k)) [
        | none ↦ (m, crashed)
        | some r ↦ (record m { registry = r }, registering name o ks)
      ]
  count_step m (registering name o []) = (inc m (node_counter name processed), inserting name o)
  count_step m (inserting name o) =
      (record m { matching_counters = name ∷ m.matching_counters }, waiting name o)
  count_step m (waiting name unanswered) = (m, finished)
  count_step m (waiting name (answered status)) =
      if contains m.matching_counters name
      then elim (count_status m name status) [ none ↦ (m, crashed) | some m' ↦ (m', finished) ]
      else (m, crashed)
  count_step m finished = (m, finished)
  count_step m crashed = (m, crashed)

  -- A request with no other between its steps.
  unfoldable pub run_count : ℕ → Metrics → Counting → Metrics × Counting
  run_count zero m c = (m, c)
  run_count (suc n) m c = let (m', c') = count_step m c in run_count n m' c'
