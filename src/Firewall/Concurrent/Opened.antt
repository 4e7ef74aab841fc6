-- ===== src/Firewall/Concurrent/Opened.antt =====
-- The firewall that `from_config` (antelope-firewall-lib/src/config.rs) builds, before any request.
use antelope_firewall.Prelude.{
  ℕ, suc, ◌≡◌, ap, ◌∙◌, inl, inr, Option, none, some, List, [], ◌∷◌, ◌++◌, map, arith, Text,
  Option-cases, ok, Result-cases,
}
use antelope_firewall.Prelude.Maps.{Map}
use antelope_firewall.Config.NodeSet.{build_node_set}
use antelope_firewall.Node.{UrlApi, NodeEntry}
use antelope_firewall.Health.{HealthChecker, start}
use antelope_firewall.Policy.{JsonApi}
use antelope_firewall.RateLimiter.{F32}
use antelope_firewall.Routing.{to_state}
use antelope_firewall.Upstream.{HeaderApi, IpApi}
use antelope_firewall.Firewall.Handler
use antelope_firewall.Firewall.Handler.{
  AntelopeFirewall, add_filter, add_ratelimiter, add_matching_rule, set_pin_limiter,
}
use antelope_firewall.Firewall.Assembly.{
  RatelimitConfig, Config, filter_sets, check_name, select_accounts_of, limiter_of, add_limiters,
  add_rules, add_nodes_of, from_config,
}
use antelope_firewall.Firewall.Serving.Enforced.{configured}
use antelope_firewall.Firewall.Concurrent.World.{World, rules_at}

module _ (u : UrlApi) (h : HeaderApi) (i : IpApi) (j : JsonApi) (f : F32) where
  add_limiters-rules :
      (selects : Map (List Text)) (names : List Text) (fw fw' : AntelopeFirewall u h i j f)
      (cs : List RatelimitConfig) (clock : ℕ → ℕ)
      → add_limiters u h i j f selects names fw cs clock ≡ some (ok fw')
      → fw'.rules ≡ fw.rules
  unfolding add_limiters add_ratelimiter
  add_limiters-rules selects names fw fw' [] clock e = ground (arith, e)
  add_limiters-rules selects names fw fw' (c ∷ cs) clock e =
      elim (Result-cases (check_name names c.name)) [
        | inr (er, q) ↦ ground (arith, e, q)
        | inl (names', q) ↦ elim (Option-cases (limiter_of u h i j f selects c (clock 0))) [
          | inl p ↦ ground (arith, e, q, p)
          | inr (l, p) ↦
              add_limiters-rules selects names' (add_ratelimiter u h i j f fw l) fw' cs
                (λ k. clock (suc k)) (ground (arith, e, q, p))
        ]
      ]

  -- The health checker as it is started.
  abbrev pub start_health :
      Option ℕ → List (NodeEntry u) → List (NodeEntry u) → Option (HealthChecker u)
  start_health none gets pushes = none
  start_health (some grace) gets pushes = some (start u (map (λ e. e.url) (gets ++ pushes)) grace)

  add_nodes_of-rules :
      (config : Config) (gets pushes : List (NodeEntry u)) (fw fw' : AntelopeFirewall u h i j f)
      → build_node_set u config.get_nodes ≡ ok gets
      → build_node_set u config.push_nodes ≡ ok pushes
      → fw.rules ≡ []
      → add_nodes_of u h i j f config fw ≡ ok fw'
      → fw'.rules ≡ rules_at u h i j f gets pushes (start_health config.healthcheck gets pushes)
  unfolding add_nodes_of add_rules add_matching_rule set_pin_limiter
  add_nodes_of-rules config gets pushes fw fw' g p r e = elim (Option-cases config.healthcheck) [
    | inl c ↦ ground (arith, e, g, p, r, c)
    | inr (grace, c) ↦ ground (arith, e, g, p, r, c)
  ]

  pub from_config-rules :
      (config : Config) (clock : ℕ → ℕ) (fw : AntelopeFirewall u h i j f)
      (gets pushes : List (NodeEntry u))
      → build_node_set u config.get_nodes ≡ ok gets
      → build_node_set u config.push_nodes ≡ ok pushes
      → from_config u h i j f config clock ≡ some (ok fw)
      → fw.rules ≡ rules_at u h i j f gets pushes (start_health config.healthcheck gets pushes)
  unfolding from_config add_filter Handler.new
  from_config-rules config clock fw gets pushes g n e =
      elim (Result-cases (filter_sets config.filter)) [
        | inr (er, q) ↦ ground (arith, e, q)
        | inl ((ips, blocked, allow), q) ↦
            let base =
              Handler.new u h i j f (to_state config.routing_mode) config.max_request_body_size
                config.client_ip_header in
            let filtered = add_filter u h i j f base (configured u h i j f ips blocked allow) in
            let selects = select_accounts_of config.ratelimit [] in
            elim (Option-cases
              (add_limiters u h i j f selects [] filtered config.ratelimit clock)) [
                | inl p ↦ ground (arith, e, q, p)
                | inr (r, p) ↦ elim (Result-cases r) [
                  | inr (er, s) ↦ ground (arith, e, q, p, s)
                  | inl (built, s) ↦
                      let bare =
                        add_limiters-rules selects [] filtered built config.ratelimit clock
                          (p ∙ ap (λ z. some z) s) in
                      add_nodes_of-rules config gets pushes built fw g n bare
                        (ground (arith, e, q, p, s))
                ]
              ]
      ]

  -- The world of a firewall that nothing has reached so far.
  abbrev pub opened :
      Config
      → AntelopeFirewall u h i j f
      → List (NodeEntry u)
      → List (NodeEntry u)
      → World u h i j f
  opened config first gets pushes = record {
    firewall = first;
    health = start_health config.healthcheck gets pushes;
    tasks = [];
  }
