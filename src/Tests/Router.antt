-- ===== src/Tests/Router.antt =====
-- Examples of the older configuration (antelope-firewall-lib/src/router.rs).
use antelope_firewall.Prelude.{
  ℕ, ◌<◌, ◌≡◌, refl, ◌⊎◌, true, none, some, [], ◌∷◌, arith, Text, codes, ◌==◌, All, Result, ok, err,
}
use antelope_firewall.Prelude.Maps.{get, insert, contains_key}
use antelope_firewall.Router.{
  all_paths, get_paths, push_paths, insert_paths, paths_map, extend, RouterNode, RouterConfig,
  Router, round_robin, ParseConfigError, accepted_paths, router_nodes, router_from_config,
  get_nodes_for_path, unknown_keyword, node_error, first_error, parse_config_from_file,
}
use antelope_firewall.Router.Accepted.{
  Accepted, Describes, found_nodes, parse_config_from_file_cases, get_nodes_for_path-found,
}

abbrev reader : RouterNode
reader = record {
  name = codes "reader";
  url = codes "r.io";
  can_handle = codes "get" ∷ codes "push_transaction" ∷ [];
  routing_weight = some 3;
}

abbrev writer : RouterNode
writer = record {
  name = codes "writer";
  url = codes "w.io";
  can_handle = codes "push" ∷ [];
  routing_weight = none;
}

abbrev config : RouterConfig
config = record {
  nodes = reader ∷ writer ∷ [];
  routing_mode = round_robin;
  port = 8000;
  prometheus_port = none;
  healthcheck_interval = 1000;
  healthcheck_time_to_invalid = 5000;
  ratelimiters = [];
}

abbrev from_str : Text → Result Text RouterConfig
from_str text = ok config

abbrev file : Text
file = codes "routing_mode = 'round_robin'"

read : (router : Router) × (parse_config_from_file (ok file) from_str ≡ some (ok (router, config)))
unfolding parse_config_from_file first_error node_error unknown_keyword contains_key paths_map
    insert_paths all_paths get_paths push_paths get insert router_from_config router_nodes
    accepted_paths extend ◌==◌
read = (_, refl)

parse_config_from_file_cases_example :
    (All Accepted config.nodes
      × (router : Router) × (parse_config_from_file (ok file) from_str ≡ some (ok (router, config)))
      × Describes config.nodes router.nodes)
    ⊎ ((All Accepted config.nodes → ⊥)
        × (e : ParseConfigError) × (parse_config_from_file (ok file) from_str ≡ some (err e)))
parse_config_from_file_cases_example = parse_config_from_file_cases file from_str config refl

get_nodes_for_path-found_example :
    (get_nodes_for_path (λ url. some true) read.0 (b'/' ∷ codes "push_transaction")
      ≡ some (found_nodes (λ url. some true) config.nodes (codes "push_transaction")))
    × All
        (λ (found : ℕ × Text). 0 < found.0)
        (found_nodes (λ url. some true) config.nodes (codes "push_transaction"))
get_nodes_for_path-found_example =
    get_nodes_for_path-found file from_str read.0 config (λ url. some true) b'/'
      (codes "push_transaction") read.1 (omega arith)
