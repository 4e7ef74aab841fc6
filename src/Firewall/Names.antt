-- ===== src/Firewall/Names.antt =====
-- What `from_config` (antelope-firewall-lib/src/config.rs) accepts: the names of the limiters, and
-- the pin limiter.
use antelope_firewall.Prelude.{
  ℕ, suc, ◌<◌, ◌≡◌, refl, sym, ap, ◌∙◌, subst, inl, inr, true, false, none, some, List, [], ◌∷◌,
  map, arith, Text, codes, ◌==◌, text_eq_refl, eq_of_text, Bool-cases, Option-cases, contains, ok,
  Result-cases, Distinct,
}
use antelope_firewall.Prelude.Maps.{Map}
use antelope_firewall.Node.{UrlApi}
use antelope_firewall.Config.NodeSet.{build_node_set}
use antelope_firewall.PinLimiter
use antelope_firewall.PinLimiter.{PinLimiter}
use antelope_firewall.Policy.{JsonApi, filter_test}
use antelope_firewall.Routing.{to_state}
use antelope_firewall.Filter
use antelope_firewall.Firewall.Handler
use antelope_firewall.RateLimiter.{F32}
use antelope_firewall.Upstream.{HeaderApi, IpApi}
use antelope_firewall.Firewall.Handler.{
  AntelopeFirewall, add_filter, add_ratelimiter, set_pin_limiter, add_matching_rule,
}
use antelope_firewall.Firewall.Assembly.{
  RatelimitConfig, Config, pin_limiter_name, filter_sets, select_accounts_of, check_name,
  limiter_of, add_limiters, add_rules, add_nodes_of, from_config,
}

abbrev pub names_of_limiters : List RatelimitConfig → List Text
names_of_limiters cs = map (λ (c : RatelimitConfig). c.name) cs

-- Each name is new against the names before it, and none is the reserved one.
abbrev Named : List Text → List RatelimitConfig → Type 0
Named names [] = Unit
Named names (c ∷ cs) =
    ((c.name == pin_limiter_name) ≡ false)
    × (contains names c.name ≡ false)
    × Named (c.name ∷ names) cs

check_name_ok :
    (names names' : List Text) (name : Text)
    → check_name names name ≡ ok names'
    → ((name == pin_limiter_name) ≡ false) × (contains names name ≡ false) × (names' ≡ name ∷ names)
unfolding check_name
check_name_ok names names' name e = ground arith

Named-contains :
    (names : List Text) (cs : List RatelimitConfig) (x : Text)
    → Named names cs
    → contains names x ≡ true
    → contains (names_of_limiters cs) x ≡ false
Named-contains names [] x n e = refl
Named-contains names (c ∷ cs) x n e = elim (Bool-cases (c.name == x)) [
  | inl same ↦ cc (sym n.1, e, ap (contains names) (eq_of_text c.name x same))
  | inr differ ↦ ground (arith, differ, Named-contains (c.name ∷ names) cs x n.2)
]

Named-Distinct :
    (names : List Text) (cs : List RatelimitConfig)
    → Named names cs
    → Distinct (names_of_limiters cs) × (contains (names_of_limiters cs) pin_limiter_name ≡ false)
Named-Distinct names [] n = (tt, refl)
Named-Distinct names (c ∷ cs) n =
    let r = Named-Distinct (c.name ∷ names) cs n.2 in
    (
      (Named-contains (c.name ∷ names) cs c.name n.2 (ground (arith, text_eq_refl c.name)), r.0),
      ground (arith, n.0, r.1),
    )

module _ (u : UrlApi) (h : HeaderApi) (i : IpApi) (j : JsonApi) (f : F32) where
  add_limiters-Named :
      (selects : Map (List Text)) (names : List Text) (fw fw' : AntelopeFirewall u h i j f)
      (cs : List RatelimitConfig) (clock : ℕ → ℕ)
      → add_limiters u h i j f selects names fw cs clock ≡ some (ok fw')
      → Named names cs
  unfolding add_limiters
  add_limiters-Named selects names fw fw' [] clock e = tt
  add_limiters-Named selects names fw fw' (c ∷ cs) clock e =
      elim (Result-cases (check_name names c.name)) [
        | inr (er, q) ↦ ground (arith, e, q)
        | inl (names', q) ↦ elim (Option-cases (limiter_of u h i j f selects c (clock 0))) [
          | inl p ↦ ground (arith, e, q, p)
          | inr (l, p) ↦
              let n = check_name_ok names names' c.name q in
              (
                n.0,
                n.1,
                subst (λ ns. Named ns cs) n.2
                    (add_limiters-Named selects names' (add_ratelimiter u h i j f fw l) fw' cs
                      (λ k. clock (suc k)) (ground (arith, e, q, p))),
              )
        ]
      ]

  add_nodes_of-pin_limiter :
      (config : Config) (fw fw' : AntelopeFirewall u h i j f)
      → add_nodes_of u h i j f config fw ≡ ok fw'
      → (0 < config.pinned_window_seconds)
        × (fw'.pin_limiter
            ≡ some (PinLimiter.new config.pinned_requests_per_window config.pinned_window_seconds))
  unfolding add_nodes_of add_rules add_matching_rule set_pin_limiter
  add_nodes_of-pin_limiter config fw fw' e =
      elim (Result-cases (build_node_set u config.push_nodes)) [
        | inr (er, q) ↦ ground (arith, e, q)
        | inl (ps, q) ↦ elim (Result-cases (build_node_set u config.get_nodes)) [
          | inr (er, p) ↦ ground (arith, e, q, p)
          | inl (gs, p) ↦ elim (Option-cases config.healthcheck) [
            | inl c ↦ ground (arith, e, q, p, c)
            | inr (g, c) ↦ ground (arith, e, q, p, c)
          ]
        ]
      ]

  -- A configuration that is accepted gives its rate limiters names that all differ, none of them the
  -- one reserved for the pin limiter, and a pin limiter with its own ceiling and a window that is
  -- not empty.
  pub from_config_ok :
      (config : Config) (clock : ℕ → ℕ) (fw : AntelopeFirewall u h i j f)
      → from_config u h i j f config clock ≡ some (ok fw)
      → Distinct (names_of_limiters config.ratelimit)
        × (contains (names_of_limiters config.ratelimit) pin_limiter_name ≡ false)
        × (0 < config.pinned_window_seconds)
        × (fw.pin_limiter
            ≡ some (PinLimiter.new config.pinned_requests_per_window config.pinned_window_seconds))
  unfolding from_config
  from_config_ok config clock fw e = elim (Result-cases (filter_sets config.filter)) [
    | inr (er, q) ↦ ground (arith, e, q)
    | inl ((ips, blocked, allow), q) ↦
        let base =
          Handler.new u h i j f (to_state config.routing_mode) config.max_request_body_size
            config.client_ip_header in
        let filtered =
          add_filter u h i j f base
            (Filter.new (codes "Filter") (filter_test j ips blocked allow) none) in
        let selects = select_accounts_of config.ratelimit [] in
        elim (Option-cases (add_limiters u h i j f selects [] filtered config.ratelimit clock)) [
          | inl p ↦ ground (arith, e, q, p)
          | inr (r, p) ↦ elim (Result-cases r) [
            | inr (er, s) ↦ ground (arith, e, q, p, s)
            | inl (built, s) ↦
                let named = Named-Distinct [] config.ratelimit (
                  add_limiters-Named selects [] filtered built config.ratelimit clock
                    (p ∙ ap (λ z. some z) s)) in
                let rest = add_nodes_of-pin_limiter config built fw (ground (arith, e, q, p, s)) in
                (named.0, named.1, rest.0, rest.1)
          ]
        ]
  ]
