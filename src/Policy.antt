-- ===== src/Policy.antt =====
-- The closures and rules that `from_config` of antelope-firewall-lib/src/config.rs hands to the
-- filter, the rate limiters and the matching engine, as functions of the request and of the sets
-- that `from_config` filled. JSON values belong to the crates serde_json and jsonpath.
pub mod Laws
pub mod Contracts
use antelope_firewall.Prelude.{
  ◌+◌, ◌*◌, ◌/◌, Bool, true, false, not, ◌&&◌, ◌||◌, Option, none, some, List, [], ◌∷◌, ◌++◌, map,
  Text, codes, ◌==◌, if◌then◌else◌, keep, any, all, contains,
}
use antelope_firewall.Prelude.Maps.{Map, get}
use antelope_firewall.Node.{UrlApi, NodeEntry}
use antelope_firewall.Config.Endpoints.{is_get, is_push}
use antelope_firewall.Health.{HealthChecker, filter_healthy_urls}

-- `select` is `Selector::new(path).unwrap().find(value)`, `get_field` is `get` of a value or of its
-- object, and `insert_field` the `insert` of an object.
pub record JsonApi : Type 1 where
  pub Value : Type 0
  pub null : Value
  pub parse_json : Text → Option Value
  pub is_object : Value → Bool
  pub as_str : Value → Option Text
  pub get_field : Text → Value → Option Value
  pub insert_field : Text → Value → Value → Value
  pub select : Text → Value → List Value

-- What the closures read of `RequestInfo`: the path and the query of its uri, and its address.
pub record RequestInfo : Type 0 where
  pub path : Text
  pub query : Option Text
  pub ip : Text

abbrev pub bind_option : {A B : Type 0} → Option A → (A → Option B) → Option B
bind_option none f = none
bind_option (some a) f = f a

abbrev pub filter_map : {A B : Type 0} → (A → Option B) → List A → List B
filter_map f [] = []
filter_map f (x ∷ xs) = elim (f x) [ none ↦ filter_map f xs | some y ↦ y ∷ filter_map f xs ]

-- The elements of a list as a set: of equal ones the last.
abbrev pub collect_set : List Text → List Text
collect_set [] = []
collect_set (x ∷ xs) = let rest = collect_set xs in if contains rest x then rest else x ∷ rest

pub data RatelimitType : Type 0 where
  attempt failure : RatelimitType

pub data RatelimitBucket : Type 0 where
  contract ip sender table : RatelimitBucket

module _ (j : JsonApi) where
  open j use {Value, as_str, get_field, select}

  unfoldable pub accounts : Value → List Text
  accounts body = filter_map as_str (select (codes "$.unpacked_trx.actions.*.account") body)

  unfoldable pub actors : Value → List Text
  actors body =
      filter_map as_str (select (codes "$.unpacked_trx.actions.*.authorization.*.actor") body)

  -- The filter: an allowed path, an address that is not blocked, and contracts that the block list
  -- or the allow list lets through.
  unfoldable pub filter_test :
      List Text → List Text → List Text → RequestInfo → Value → Value → Bool
  filter_test blocked_ips blocked_contracts allow_only req body json =
      if not (is_push req.path) && not (is_get req.path)
      then false
      else if contains blocked_ips req.ip
      then false
      else elim blocked_contracts [
        | [] ↦ elim allow_only [ [] ↦ true | a ∷ as' ↦ all (contains (a ∷ as')) (accounts body) ]
        | b ∷ bs ↦ not (any (contains (b ∷ bs)) (accounts body))
      ]

  -- `SELECT_ACCOUNTS` keeps the selected of the buckets, where the limiter's name is in it.
  unfoldable pub selected : Map (List Text) → Text → List Text → List Text
  selected select_accounts name unfiltered = elim (get name select_accounts) [
    | none ↦ unfiltered
    | some chosen ↦ keep (contains chosen) unfiltered
  ]

  abbrev separator : Text
  separator = codes "::"

  unfoldable pub table_of : RequestInfo → Value → List Text
  table_of req body =
      if req.path == codes "/v1/chain/get_table_rows"
        || req.path == codes "/v1/chain/get_table_by_scope"
      then elim (bind_option (get_field (codes "code") body) as_str) [
        | none ↦ []
        | some code ↦ elim (bind_option (get_field (codes "table") body) as_str) [
          | none ↦ []
          | some tab ↦ (code ++ (separator ++ tab)) ∷ []
        ]
      ]
      else []

  -- The buckets of a configured rate limiter.
  unfoldable pub buckets_of :
      RatelimitBucket → Map (List Text) → Text → RequestInfo → Value → Value → List Text
  buckets_of contract select_accounts name req body json =
      selected select_accounts name (collect_set (accounts body))
  buckets_of ip select_accounts name req body json = req.ip ∷ []
  buckets_of sender select_accounts name req body json =
      selected select_accounts name (collect_set (actors body))
  buckets_of table select_accounts name req body json = collect_set (
      map (λ tab. req.ip ++ (separator ++ tab)) (selected select_accounts name (table_of req body)))

  module _ (u : UrlApi) where
    -- The first matching rule: the node list of the endpoint.
    unfoldable pub endpoint_rule :
        List (NodeEntry u)
        → List (NodeEntry u)
        → RequestInfo
        → Value
        → Value
        → List (NodeEntry u)
        → List (NodeEntry u)
    endpoint_rule get_nodes push_nodes req body json urls =
        if is_get req.path then get_nodes else if is_push req.path then push_nodes else []

    -- The second: the health filter, where a health checker is configured.
    unfoldable pub health_rule :
        Option (HealthChecker u)
        → RequestInfo
        → Value
        → Value
        → List (NodeEntry u)
        → List (NodeEntry u)
    health_rule none req body json urls = urls
    health_rule (some h) req body json urls = filter_healthy_urls u h urls
