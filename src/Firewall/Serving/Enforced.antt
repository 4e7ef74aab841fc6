-- ===== src/Firewall/Serving/Enforced.antt =====
-- The block list of a configuration (antelope-firewall-lib/src/config.rs) in the firewall that is
-- built from it, before and after any requests (antelope-firewall-lib/src/firewall_builder.rs).
use antelope_firewall.Prelude.{
  ℕ, suc, ◌≡◌, refl, sym, ap, ◌∙◌, subst, inl, inr, true, false, Option, none, some, List, [], ◌∷◌,
  ◌++◌, map, arith, Text, codes, In, Option-cases, contains, ok, Result-cases,
}
use antelope_firewall.Prelude.Maps.{Map}
use antelope_firewall.Node.{UrlApi}
use antelope_firewall.Config.NodeSet.{build_node_set}
use antelope_firewall.Filter.{Filter}
use antelope_firewall.Filter
use antelope_firewall.Policy.{JsonApi, RequestInfo, filter_test}
use antelope_firewall.RateLimiter.{F32}
use antelope_firewall.Routing.{Order, to_state}
use antelope_firewall.Upstream.{HeaderApi, IpApi}
use antelope_firewall.De.Transaction.{Action, Transaction}
use antelope_firewall.De.Packing.{IsTransaction, pack_transaction}
use antelope_firewall.Firewall.Unpacking.{Carries}
use antelope_firewall.Firewall.Body.{post, too_big}
use antelope_firewall.Firewall.Decoding.{ValueApi, decode_trx}
use antelope_firewall.Firewall.Blocked.{handle_request-blocked}
use antelope_firewall.Firewall.Replies.{get_blocked_response}
use antelope_firewall.Firewall.Handler
use antelope_firewall.Firewall.Handler.{
  AntelopeFirewall, Incoming, Surroundings, handle_request, add_filter, add_ratelimiter,
  add_matching_rule, set_pin_limiter,
}
use antelope_firewall.Firewall.Assembly.{
  FilterConfig, RatelimitConfig, Config, filter_sets, check_name, select_accounts_of, limiter_of,
  add_limiters, add_rules, add_nodes_of, from_config,
}
use antelope_firewall.Firewall.Serving.{Visit, serve}
use antelope_firewall.Firewall.Serving.Settings.{filter_settings}
use antelope_firewall.Firewall.Serving.Invariants.{serve-Kept}

module _ (u : UrlApi) (h : HeaderApi) (i : IpApi) (j : JsonApi) (f : F32) where
  pub add_limiters-filters :
      (selects : Map (List Text)) (names : List Text) (fw fw' : AntelopeFirewall u h i j f)
      (cs : List RatelimitConfig) (clock : ℕ → ℕ)
      → add_limiters u h i j f selects names fw cs clock ≡ some (ok fw')
      → fw'.filters ≡ fw.filters
  unfolding add_limiters add_ratelimiter
  add_limiters-filters selects names fw fw' [] clock e = ground (arith, e)
  add_limiters-filters selects names fw fw' (c ∷ cs) clock e =
      elim (Result-cases (check_name names c.name)) [
        | inr (er, q) ↦ ground (arith, e, q)
        | inl (names', q) ↦ elim (Option-cases (limiter_of u h i j f selects c (clock 0))) [
          | inl p ↦ ground (arith, e, q, p)
          | inr (l, p) ↦
              add_limiters-filters selects names' (add_ratelimiter u h i j f fw l) fw' cs
                (λ k. clock (suc k)) (ground (arith, e, q, p))
        ]
      ]

  add_nodes_of-filters :
      (config : Config) (fw fw' : AntelopeFirewall u h i j f)
      → add_nodes_of u h i j f config fw ≡ ok fw'
      → fw'.filters ≡ fw.filters
  unfolding add_nodes_of add_rules add_matching_rule set_pin_limiter
  add_nodes_of-filters config fw fw' e = elim (Result-cases (build_node_set u config.push_nodes)) [
    | inr (er, q) ↦ ground (arith, e, q)
    | inl (ps, q) ↦ elim (Result-cases (build_node_set u config.get_nodes)) [
      | inr (er, p) ↦ ground (arith, e, q, p)
      | inl (gs, p) ↦ elim (Option-cases config.healthcheck) [
        | inl c ↦ ground (arith, e, q, p, c)
        | inr (g, c) ↦ ground (arith, e, q, p, c)
      ]
    ]
  ]

  -- The filter that a configuration with these sets builds.
  abbrev pub configured : List Text → List Text → List Text → Filter RequestInfo j.Value
  configured ips blocked allow = Filter.new (codes "Filter") (filter_test j ips blocked allow) none

  pub from_config-filters :
      (config : Config) (clock : ℕ → ℕ) (fw : AntelopeFirewall u h i j f)
      (ips blocked allow : List Text)
      → filter_sets config.filter ≡ ok (ips, blocked, allow)
      → from_config u h i j f config clock ≡ some (ok fw)
      → fw.filters ≡ configured ips blocked allow ∷ []
  unfolding from_config add_filter Handler.new
  from_config-filters config clock fw ips blocked allow q e =
      let base =
        Handler.new u h i j f (to_state config.routing_mode) config.max_request_body_size
          config.client_ip_header in
      let filtered = add_filter u h i j f base (configured ips blocked allow) in
      let selects = select_accounts_of config.ratelimit [] in
      elim (Option-cases (add_limiters u h i j f selects [] filtered config.ratelimit clock)) [
        | inl p ↦ ground (arith, e, q, p)
        | inr (r, p) ↦ elim (Result-cases r) [
          | inr (er, s) ↦ ground (arith, e, q, p, s)
          | inl (built, s) ↦
              add_nodes_of-filters config built fw (ground (arith, e, q, p, s))
              ∙ add_limiters-filters selects [] filtered built config.ratelimit clock
                  (p ∙ ap (λ z. some z) s)
        ]
      ]

  from_config-sets :
      (config : Config) (clock : ℕ → ℕ) (fw : AntelopeFirewall u h i j f)
      → from_config u h i j f config clock ≡ some (ok fw)
      → (sets : List Text × List Text × List Text) × (filter_sets config.filter ≡ ok sets)
  unfolding from_config
  from_config-sets config clock fw e = elim (Result-cases (filter_sets config.filter)) [
    | inr (er, q) ↦ ground (arith, e, q)
    | inl found ↦ found
  ]

filter_sets-blocked :
    (filter : Option FilterConfig) (c : FilterConfig) (ips blocked allow wanted : List Text)
    → filter ≡ some c
    → c.block_contracts ≡ some wanted
    → filter_sets filter ≡ ok (ips, blocked, allow)
    → blocked ≡ wanted
unfolding filter_sets
filter_sets-blocked none c ips blocked allow wanted e b h = ground (arith, e)
filter_sets-blocked (some d) c ips blocked allow wanted e b h = ground (arith, e, b, h)

-- One filter with known settings.
only_filter :
    {Request Value : Type 0} (null : Value) (gs : List (Filter Request Value))
    (g : Filter Request Value)
    → map (filter_settings null) gs ≡ filter_settings null g ∷ []
    → (g' : Filter Request Value) × In g' gs × (g'.test ≡ g.test) × (g'.cache ≡ g.cache)
only_filter null [] g e = ground (arith, e)
only_filter null (g' ∷ gs) g e =
    let same : filter_settings null g' ≡ filter_settings null g = ground (arith, e) in
    (g', inl refl, ap (λ k. k.test) same, ap (λ k. k.cache) same)

module _ (u : UrlApi) (h : HeaderApi) (i : IpApi) (j : JsonApi) (f : F32) (s : ValueApi j)
    (partial_cmp : f.Float → f.Float → Option Order) (hex_decode : Text → Option Text) where
  open j use {Value, parse_json, is_object}

  -- A contract that the configuration blocks stays blocked: when the firewall that was built from it
  -- has handled any requests in sequence, a POST within the size limit whose body is an object that
  -- packs a transaction, in the object in its field transaction or, where it has no field
  -- transaction, in itself, and one of the transaction's actions calls that contract, is answered
  -- with the blocked response, and only the counters of the filters can differ afterwards. So it is not
  -- forwarded, and no limiter, pin or routing counter is touched.
  pub handle_request-configured_block :
      (config : Config) (c : FilterConfig) (clock : ℕ → ℕ) (first fw : AntelopeFirewall u h i j f)
      (vs : List (Visit u h i j f)) (inc : Incoming u h i j f) (peer : i.Ip)
      (env : Surroundings u h i j f) (blocked : List Text) (b : ℕ) (bytes : Text) (root : Value)
      (t : Transaction) (rest : List ℕ) (a : Action)
      → config.filter ≡ some c
      → c.block_contracts ≡ some blocked
      → contains blocked a.account ≡ true
      → from_config u h i j f config clock ≡ some (ok first)
      → serve u h i j f partial_cmp hex_decode (decode_trx j s) first vs ≡ some fw
      → too_big inc.size_upper fw.max_request_body_size ≡ false
      → inc.method ≡ post
      → inc.body ≡ some (b ∷ bytes)
      → parse_json (b ∷ bytes) ≡ some root
      → is_object root ≡ true
      → Carries j hex_decode root (pack_transaction t ++ rest)
      → IsTransaction t
      → In a t.actions
      → (fs : List (Filter RequestInfo Value)) × (map (filter_settings j.null) fs
          ≡ map (filter_settings j.null) fw.filters)
        × (handle_request u h i j f partial_cmp hex_decode (decode_trx j s) fw inc peer env
            ≡ some (record fw { filters = fs }, get_blocked_response))
  unfolding Filter.new
  handle_request-configured_block config c clock first fw vs inc peer env blocked b bytes root t
        rest a has blocks listed' built served small method body parses object packed v calls =
      let kept =
        serve-Kept u h i j f partial_cmp hex_decode (decode_trx j s) config clock first fw vs built
          served in
      let ((ips, bs, allow), q) = from_config-sets u h i j f config clock first built in
      let start = from_config-filters u h i j f config clock first ips bs allow q built in
      let g =
        only_filter j.null fw.filters (configured u h i j f ips bs allow)
          (kept.filters ∙ ap (map (filter_settings j.null)) start) in
      let same = filter_sets-blocked config.filter c ips bs allow blocked has blocks q in
      handle_request-blocked u h i j f s partial_cmp hex_decode fw inc peer env g.0 ips bs allow b
        bytes root t rest a g.1 g.2 g.3 small method body parses object packed v calls
        (subst (λ l. contains l a.account ≡ true) (sym same) listed')
