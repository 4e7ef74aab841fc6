-- ===== src/Firewall/Assembly.antt =====
-- `from_config` of antelope-firewall-lib/src/config.rs: the checks of a configuration and the
-- firewall that is built from it. The sets that the closures read are those that it filled. The
-- parsing of the two socket addresses and the start of the exporter are left out.
use antelope_firewall.Prelude.{
  ℕ, suc, Bool, true, ◌&&◌, Option, none, some, List, [], ◌∷◌, ◌++◌, map, Text, codes, ◌==◌, ltb,
  leb, eqb, if◌then◌else◌, length, contains, Result, ok, err,
}
use antelope_firewall.Prelude.Maps.{Map, insert}
use antelope_firewall.Node.{UrlApi, NodeEntry}
use antelope_firewall.Config.NodeSet.{Node, NodeError, build_node_set}
use antelope_firewall.Filter
use antelope_firewall.Health.{start}
use antelope_firewall.PinLimiter
use antelope_firewall.PinLimiter.{PinLimiter}
use antelope_firewall.Policy.{
  JsonApi, RequestInfo, RatelimitType, attempt, failure, RatelimitBucket, filter_test, buckets_of,
  endpoint_rule, health_rule,
}
use antelope_firewall.RateLimiter
use antelope_firewall.RateLimiter.{F32, RateLimiter, IncrementMode, before, after}
use antelope_firewall.Routing.{RoutingMode, to_state}
use antelope_firewall.Upstream.{HeaderApi, IpApi}
use antelope_firewall.Firewall.Handler
use antelope_firewall.Firewall.Handler.{
  Answer, AntelopeFirewall, add_filter, add_ratelimiter, set_pin_limiter, add_matching_rule,
}

pub record FilterConfig : Type 0 where
  pub block_contracts : Option (List Text)
  pub block_ips : Option (List Text)
  pub allow_only_contracts : Option (List Text)

pub record RatelimitConfig : Type 0 where
  pub name : Text
  pub limit_on : RatelimitType
  pub bucket_type : RatelimitBucket
  pub limit : ℕ
  pub window_duration : ℕ
  pub select_accounts : Option (List Text)

pub record Config : Type 0 where
  pub routing_mode : RoutingMode
  pub max_request_body_size : ℕ
  pub client_ip_header : Option Text
  pub pinned_requests_per_window : ℕ
  pub pinned_window_seconds : ℕ
  -- The grace period of the health check, where there is one.
  pub healthcheck : Option ℕ
  pub filter : Option FilterConfig
  pub ratelimit : List RatelimitConfig
  pub push_nodes : List Node
  pub get_nodes : List Node

pub data ConfigError : Type 0 where
  block_and_allow : ConfigError
  reserved_name : ConfigError
  duplicate_ratelimiter : Text → ConfigError
  no_pinned_window : ConfigError
  bad_node : NodeError → ConfigError

abbrev pub pin_limiter_name : Text
pin_limiter_name = codes "pinned"

abbrev pub listed : Option (List Text) → List Text
listed none = []
listed (some xs) = xs

-- The blocked addresses, the blocked contracts and the allowed contracts.
unfoldable pub filter_sets :
    Option FilterConfig → Result ConfigError (List Text × List Text × List Text)
filter_sets none = ok ([], [], [])
filter_sets (some c) =
    if ltb 0 (length (listed c.block_contracts)) && ltb 0 (length (listed c.allow_only_contracts))
    then err block_and_allow
    else ok (listed c.block_ips, listed c.block_contracts, listed c.allow_only_contracts)

-- `SELECT_ACCOUNTS` once all limiters are configured.
unfoldable pub select_accounts_of : List RatelimitConfig → Map (List Text) → Map (List Text)
select_accounts_of [] m = m
select_accounts_of (c ∷ cs) m =
    select_accounts_of cs
      (elim c.select_accounts [ none ↦ m | some accounts ↦ insert c.name accounts m ])

abbrev pub is_success : ℕ → Bool
is_success status = leb 200 status && ltb status 300

-- The checks of a limiter's name, against the names before it.
unfoldable pub check_name : List Text → Text → Result ConfigError (List Text)
check_name names name =
    if name == pin_limiter_name
    then err reserved_name
    else if contains names name
    then err (duplicate_ratelimiter name)
    else ok (name ∷ names)

module _ (u : UrlApi) (h : HeaderApi) (i : IpApi) (j : JsonApi) (f : F32) where
  open j use {Value, null}

  unfoldable pub increment_mode_of :
      RatelimitType → IncrementMode RequestInfo Value (Answer u h i j f)
  increment_mode_of attempt = before (λ req body json. 1)
  increment_mode_of failure = after (λ req body res json. if is_success res.1 then 0 else 1)

  -- `none` is the panic of a window of no length.
  unfoldable pub limiter_of :
      Map (List Text)
      → RatelimitConfig
      → ℕ
      → Option (RateLimiter RequestInfo Value (Answer u h i j f))
  limiter_of selects c now =
      RateLimiter.new c.name (λ req body json. true) (buckets_of j c.bucket_type selects)
        (λ req body json. c.limit) (increment_mode_of c.limit_on) none c.window_duration now

  -- The loop over the configured limiters; `clock` has the time of each round.
  unfoldable pub add_limiters :
      Map (List Text)
      → List Text
      → AntelopeFirewall u h i j f
      → List RatelimitConfig
      → (ℕ → ℕ)
      → Option (Result ConfigError (AntelopeFirewall u h i j f))
  add_limiters selects names fw [] clock = some (ok fw)
  add_limiters selects names fw (c ∷ cs) clock = elim (check_name names c.name) [
    | err e ↦ some (err e)
    | ok names' ↦ elim (limiter_of selects c (clock 0)) [
      | none ↦ none
      | some l ↦
          add_limiters selects names' (add_ratelimiter u h i j f fw l) cs (λ k. clock (suc k))
    ]
  ]

  -- The matching rules; the health checker, where one is configured, starts with all nodes.
  unfoldable pub add_rules :
      AntelopeFirewall u h i j f
      → Option ℕ
      → List (NodeEntry u)
      → List (NodeEntry u)
      → AntelopeFirewall u h i j f
  add_rules fw healthcheck get_nodes push_nodes =
      let routed = add_matching_rule u h i j f fw (endpoint_rule j u get_nodes push_nodes) in
      elim healthcheck [
        | none ↦ routed
        | some grace ↦
            add_matching_rule u h i j f routed
              (health_rule j u (some (start u (map (λ e. e.url) (get_nodes ++ push_nodes)) grace)))
      ]

  -- The pin limiter, the node sets and the rules.
  unfoldable pub add_nodes_of :
      Config → AntelopeFirewall u h i j f → Result ConfigError (AntelopeFirewall u h i j f)
  add_nodes_of config fw =
      if eqb config.pinned_window_seconds 0
      then err no_pinned_window
      else (let pinned =
            set_pin_limiter u h i j f fw
              (PinLimiter.new config.pinned_requests_per_window config.pinned_window_seconds) in
          elim (build_node_set u config.push_nodes) [
            | err e ↦ err (bad_node e)
            | ok push_nodes ↦ elim (build_node_set u config.get_nodes) [
              | err e ↦ err (bad_node e)
              | ok get_nodes ↦ ok (add_rules pinned config.healthcheck get_nodes push_nodes)
            ]
          ])

  unfoldable pub from_config :
      Config → (ℕ → ℕ) → Option (Result ConfigError (AntelopeFirewall u h i j f))
  from_config config clock = elim (filter_sets config.filter) [
    | err e ↦ some (err e)
    | ok (ips, blocked, allow) ↦
        let base =
          Handler.new u h i j f (to_state config.routing_mode) config.max_request_body_size
            config.client_ip_header in
        let filtered =
          add_filter u h i j f base
            (Filter.new (codes "Filter") (filter_test j ips blocked allow) none) in
        elim (add_limiters (select_accounts_of config.ratelimit []) [] filtered config.ratelimit
          clock) [
            | none ↦ none
            | some (err e) ↦ some (err e)
            | some (ok fw) ↦ some (add_nodes_of config fw)
          ]
  ]
