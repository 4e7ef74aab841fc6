-- ===== src/Router.antt =====
-- antelope-firewall-lib/src/router.rs: the older configuration file with its checks, and the choice
-- of the nodes for a path. The reading of the file, the toml parser and the map of healths that it
-- names are parameters; `none` stands for a panic.
pub mod Paths
pub mod Accepted
use antelope_firewall.Prelude.{
  ℕ, Bool, false, not, ◌&&◌, Option, none, some, List, [], ◌∷◌, ◌++◌, map, Text, codes, ltb, eqb,
  if◌then◌else◌, contains, Result, ok, err,
}
use antelope_firewall.Prelude.Maps.{Map, get, insert, contains_key}

unfoldable pub all_paths : List Text
all_paths =
    codes "get_account"
    ∷ codes "get_block"
    ∷ codes "get_block_info"
    ∷ codes "get_info"
    ∷ codes "push_transaction"
    ∷ codes "send_transaction"
    ∷ codes "push_transactions"
    ∷ codes "get_block_header_state"
    ∷ codes "get_abi"
    ∷ codes "get_currency_balance"
    ∷ codes "get_currency_stats"
    ∷ codes "get_required_keys"
    ∷ codes "get_producers"
    ∷ codes "get_raw_code_and_abi"
    ∷ codes "get_scheduled_transaction"
    ∷ codes "get_table_by_scope"
    ∷ codes "get_table_rows"
    ∷ codes "get_kv_table_rows"
    ∷ codes "abi_json_to_bin"
    ∷ codes "abi_bin_to_json"
    ∷ codes "get_code"
    ∷ codes "get_raw_abi"
    ∷ codes "get_activated_protocol_features"
    ∷ codes "get_accounts_by_authorizers"
    ∷ codes "send_transaction2"
    ∷ codes "compute_transaction"
    ∷ []

-- ENDPOINTS: the same paths with their slash.
unfoldable pub endpoints : List Text
endpoints = map (λ path. b'/' ∷ path) all_paths

unfoldable pub get_paths : List Text
get_paths =
    codes "get_account"
    ∷ codes "get_block"
    ∷ codes "get_block_info"
    ∷ codes "get_info"
    ∷ codes "get_block_header_state"
    ∷ codes "get_abi"
    ∷ codes "get_currency_balance"
    ∷ codes "get_currency_stats"
    ∷ codes "get_required_keys"
    ∷ codes "get_producers"
    ∷ codes "get_raw_code_and_abi"
    ∷ codes "get_scheduled_transaction"
    ∷ codes "get_table_by_scope"
    ∷ codes "get_table_rows"
    ∷ codes "get_kv_table_rows"
    ∷ codes "abi_json_to_bin"
    ∷ codes "abi_bin_to_json"
    ∷ codes "get_code"
    ∷ codes "get_raw_abi"
    ∷ codes "get_activated_protocol_features"
    ∷ codes "get_accounts_by_authorizers"
    ∷ codes "compute_transaction"
    ∷ []

unfoldable pub push_paths : List Text
push_paths =
    codes "send_transaction"
    ∷ codes "push_transactions"
    ∷ codes "push_transaction"
    ∷ codes "send_transaction2"
    ∷ []

unfoldable pub insert_paths : List Text → Map (List Text) → Map (List Text)
insert_paths [] m = m
insert_paths (path ∷ paths) m = insert_paths paths (insert path (path ∷ []) m)

unfoldable pub paths_map : Map (List Text)
paths_map =
    insert (codes "push") push_paths
      (insert (codes "get") get_paths (insert_paths all_paths (insert (codes "all") all_paths [])))

pub data RouterMode : Type 0 where
  round_robin least_connections random : RouterMode

pub record RateLimiterParams : Type 0 where
  pub secs_in_window : ℕ
  pub allowed_per_window : ℕ

pub record RouterNode : Type 0 where
  pub name : Text
  pub url : Text
  pub can_handle : List Text
  pub routing_weight : Option ℕ

pub record RouterConfig : Type 0 where
  pub nodes : List RouterNode
  pub routing_mode : RouterMode
  pub port : ℕ
  pub prometheus_port : Option ℕ
  pub healthcheck_interval : ℕ
  pub healthcheck_time_to_invalid : ℕ
  pub ratelimiters : List RateLimiterParams

pub record Router : Type 0 where
  pub nodes : List (Text × ℕ × List Text)
  pub routing_mode : RouterMode
  pub port : ℕ

pub data ParseConfigError : Type 0 where
  invalid_format : Text → ParseConfigError
  couldnt_read_file : Text → ParseConfigError

-- `extend` of a set.
unfoldable pub extend : List Text → List Text → List Text
extend acc [] = acc
extend acc (x ∷ xs) = extend (if contains acc x then acc else x ∷ acc) xs

abbrev pub weight_or_one : Option ℕ → ℕ
weight_or_one none = 1
weight_or_one (some w) = w

-- The paths of the keywords of a node, from those so far; an unknown keyword panics.
unfoldable pub accepted_paths : List Text → List Text → Option (List Text)
accepted_paths acc [] = some acc
accepted_paths acc (keyword ∷ keywords) = elim (get keyword paths_map) [
  | none ↦ none
  | some paths ↦ accepted_paths (extend acc paths) keywords
]

unfoldable pub router_nodes : List RouterNode → Option (List (Text × ℕ × List Text))
router_nodes [] = some []
router_nodes (n ∷ ns) = elim (accepted_paths [] n.can_handle) [
  | none ↦ none
  | some paths ↦ elim (router_nodes ns) [
    | none ↦ none
    | some rest ↦ some ((n.url, weight_or_one n.routing_weight, paths) ∷ rest)
  ]
]

unfoldable pub router_from_config : RouterConfig → Option Router
router_from_config config = elim (router_nodes config.nodes) [
  | none ↦ none
  | some nodes ↦
      some (record { nodes = nodes; routing_mode = config.routing_mode; port = config.port })
]

-- `&path[1..]`: a text that does not begin with a character of one byte panics.
unfoldable pub without_slash : Text → Option Text
without_slash [] = none
without_slash (c ∷ cs) = if ltb c 128 then some cs else none

abbrev pub healthy_or_false : Option Bool → Bool
healthy_or_false none = false
healthy_or_false (some b) = b

-- The loop over the nodes; `healthy` is the map of healths.
unfoldable pub matching_nodes :
    (Text → Option Bool) → List (Text × ℕ × List Text) → Text → Option (List (ℕ × Text))
matching_nodes healthy [] path = some []
matching_nodes healthy ((url, weight, paths) ∷ nodes) path = elim (without_slash path) [
  | none ↦ none
  | some name ↦ elim (matching_nodes healthy nodes path) [
    | none ↦ none
    | some rest ↦ some (
        if contains paths name && healthy_or_false (healthy url)
        then (weight, url) ∷ rest
        else rest)
  ]
]

unfoldable pub get_nodes_for_path : (Text → Option Bool) → Router → Text → Option (List (ℕ × Text))
get_nodes_for_path healthy router path = matching_nodes healthy router.nodes path

abbrev pub keyword_error : Text → ParseConfigError
keyword_error keyword =
    invalid_format (keyword ++ codes " is an invalid endpoint or endpoint group.")

abbrev pub weight_error : Text → ParseConfigError
weight_error name =
    invalid_format
      (codes "Node " ++ (name ++ codes " has a routing weight of 0, which is invalid."))

-- The first keyword that is not known.
unfoldable pub unknown_keyword : List Text → Option ParseConfigError
unknown_keyword [] = none
unknown_keyword (keyword ∷ keywords) =
    if not (contains_key keyword paths_map)
    then some (keyword_error keyword)
    else unknown_keyword keywords

unfoldable pub node_error : RouterNode → Option ParseConfigError
node_error n = elim n.routing_weight [
  | none ↦ unknown_keyword n.can_handle
  | some w ↦ if eqb w 0 then some (weight_error n.name) else unknown_keyword n.can_handle
]

unfoldable pub first_error : List RouterNode → Option ParseConfigError
first_error [] = none
first_error (n ∷ ns) = elim (node_error n) [ some e ↦ some e | none ↦ first_error ns ]

-- `read` is what reading the file gives, `from_str` toml's parser; both give their error's text.
unfoldable pub parse_config_from_file :
    Result Text Text
    → (Text → Result Text RouterConfig)
    → Option (Result ParseConfigError (Router × RouterConfig))
parse_config_from_file (err e) from_str = some (err (couldnt_read_file e))
parse_config_from_file (ok text) from_str = elim (from_str text) [
  | err e ↦ some (err (invalid_format e))
  | ok config ↦ elim (first_error config.nodes) [
    | some e ↦ some (err e)
    | none ↦ elim (router_from_config config) [
      | none ↦ none
      | some router ↦ some (ok (router, config))
    ]
  ]
]
