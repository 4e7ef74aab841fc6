-- ===== src/Firewall/Serving/Invariants.antt =====
-- The configuration of the firewall and its pin limiter over any sequence of requests
-- (antelope-firewall-lib/src/firewall_builder.rs).
use antelope_firewall.Prelude.{
  ℕ, ◌≡◌, refl, sym, ◌∙◌, subst, inl, inr, Option, none, some, List, map, arith, Text, Option-cases,
  ok, ok,
}
use antelope_firewall.Node.{UrlApi, NodeEntry}
use antelope_firewall.PinLimiter.{PinLimiter}
use antelope_firewall.PinLimiter.Bounds.{IsValid, admits-IsValid, new-IsValid}
use antelope_firewall.PinLimiter.Ceiling.{admits-config}
use antelope_firewall.PinLimiter.Key.{pin_key}
use antelope_firewall.Policy.{JsonApi, RequestInfo}
use antelope_firewall.RateLimiter.{F32}
use antelope_firewall.Routing.{RoutingModeState, Order, choose}
use antelope_firewall.Upstream.{HeaderApi, IpApi}
use antelope_firewall.Firewall.Assembly.{Config, from_config}
use antelope_firewall.Firewall.Names.{from_config_ok}
use antelope_firewall.Firewall.Route.{asked_node, limit_pin, choose_node}
use antelope_firewall.Firewall.Handler.{AntelopeFirewall}
use antelope_firewall.RateLimiter.Settings.{limiter_settings}
use antelope_firewall.Firewall.Serving.{Visit, serve}
use antelope_firewall.Firewall.Serving.Keeping.{Keeps, serve-Keeps}
use antelope_firewall.Firewall.Serving.Settings.{
  filter_settings, run_filters-settings, run_limiters-settings, post_increments-settings,
}

-- A pin limiter that is there stays there, with its limit and its window, and stays valid.
abbrev pub PinsKept : Option PinLimiter → Option PinLimiter → Type 0
PinsKept none none = Unit
PinsKept none (some l') = ⊥
PinsKept (some l) none = ⊥
PinsKept (some l) (some l') = IsValid l' × (l'.limit ≡ l.limit) × (l'.window ≡ l.window)

module _ (u : UrlApi) where
  pub limit_pin-PinsKept :
      (first limiter : Option PinLimiter) (req : RequestInfo) (now : ℕ)
      (asked : Option (NodeEntry u))
      → PinsKept first limiter
      → PinsKept first (limit_pin u req now limiter asked).1
  unfolding limit_pin
  limit_pin-PinsKept first limiter req now none p = p
  limit_pin-PinsKept first none req now (some node) p = p
  limit_pin-PinsKept none (some l) req now (some node) p = p
  limit_pin-PinsKept (some l0) (some l) req now (some node) p =
      let key = pin_key req.ip node.name in
      let same = admits-config l key now in
      (admits-IsValid l key now p.0, same.0 ∙ p.1, same.1 ∙ p.2)

  choose_node-limiter :
      (f : F32) (partial_cmp : f.Float → f.Float → Option Order) (req : RequestInfo) (now : ℕ)
      (sample : List ℕ → Option ℕ) (limiter : Option PinLimiter) (mode : RoutingModeState)
      (urls : List (NodeEntry u)) (chosen : Option (NodeEntry u)) (limiter' : Option PinLimiter)
      (mode' : RoutingModeState)
      → choose_node u f partial_cmp req now sample limiter mode urls
        ≡ some (chosen, limiter', mode')
      → limiter' ≡ (limit_pin u req now limiter (asked_node u req urls)).1
  unfolding choose_node
  choose_node-limiter f partial_cmp req now sample limiter mode urls chosen limiter' mode' e =
      elim (Option-cases (limit_pin u req now limiter (asked_node u req urls)).0) [
        | inr (node, q) ↦ ground (arith, e, q)
        | inl q ↦ elim (Option-cases (choose u f partial_cmp mode sample req.path urls)) [
          | inl t ↦ ground (arith, e, q, t)
          | inr (r, t) ↦ ground (arith, e, q, t)
        ]
      ]

module _ (u : UrlApi) (h : HeaderApi) (i : IpApi) (j : JsonApi) (f : F32)
    (partial_cmp : f.Float → f.Float → Option Order) (hex_decode : Text → Option Text)
    (decode_trx : Text → Option j.Value) where
  -- All that was configured stands as it did; the counters, the windows, the pins and the turn of the
  -- routing are free.
  pub record Kept (first fw : AntelopeFirewall u h i j f) : Type 0 where
    pub filters :
        map (filter_settings j.null) fw.filters ≡ map (filter_settings j.null) first.filters
    pub ratelimiters :
        map (limiter_settings j.null) fw.ratelimiters
        ≡ map (limiter_settings j.null) first.ratelimiters
    pub rules : fw.rules ≡ first.rules
    pub max_request_body_size : fw.max_request_body_size ≡ first.max_request_body_size
    pub client_ip_header : fw.client_ip_header ≡ first.client_ip_header
    pub pins : PinsKept first.pin_limiter fw.pin_limiter

  Keeps-Kept : (first : AntelopeFirewall u h i j f) → Keeps u h i j f partial_cmp (Kept first)
  Keeps-Kept first = record {
    filters = λ fw req json k. record {
      filters = run_filters-settings j.null fw.filters req json ∙ k.filters;
      ratelimiters = k.ratelimiters;
      rules = k.rules;
      max_request_body_size = k.max_request_body_size;
      client_ip_header = k.client_ip_header;
      pins = k.pins;
    };
    limiters = λ fw req json clock ls refused e k. record {
      filters = k.filters;
      ratelimiters =
          run_limiters-settings j.null f fw.ratelimiters ls req json clock refused e
          ∙ k.ratelimiters;
      rules = k.rules;
      max_request_body_size = k.max_request_body_size;
      client_ip_header = k.client_ip_header;
      pins = k.pins;
    };
    routing = λ fw req now sample urls chosen limiter mode e k. record {
      filters = k.filters;
      ratelimiters = k.ratelimiters;
      rules = k.rules;
      max_request_body_size = k.max_request_body_size;
      client_ip_header = k.client_ip_header;
      pins =
          subst (PinsKept first.pin_limiter)
            (sym (
              choose_node-limiter u f partial_cmp req now sample fw.pin_limiter fw.routing_mode urls
                chosen limiter mode e))
            (limit_pin-PinsKept u first.pin_limiter fw.pin_limiter req now (asked_node u req urls)
              k.pins);
    };
    answers = λ fw req json a k. record {
      filters = k.filters;
      ratelimiters = post_increments-settings j.null fw.ratelimiters req json a ∙ k.ratelimiters;
      rules = k.rules;
      max_request_body_size = k.max_request_body_size;
      client_ip_header = k.client_ip_header;
      pins = k.pins;
    };
  }

  -- Whatever requests a firewall that was built from a configuration handles, in sequence: its
  -- filters keep their tests and caches, its rate limiters all but their windows and counters, and
  -- its matching rules, size limit and client address header stand; the pin limiter keeps its limit
  -- and its window, has one slot per key, at most the ceiling on keys, and no count above the limit.
  pub serve-Kept :
      (config : Config) (clock : ℕ → ℕ) (first fw : AntelopeFirewall u h i j f)
      (vs : List (Visit u h i j f))
      → from_config u h i j f config clock ≡ some (ok first)
      → serve u h i j f partial_cmp hex_decode decode_trx first vs ≡ some fw
      → Kept first fw
  serve-Kept config clock first fw vs built served =
      serve-Keeps u h i j f partial_cmp (Kept first) (Keeps-Kept first) hex_decode decode_trx first
        fw vs
        (record {
          filters = refl;
          ratelimiters = refl;
          rules = refl;
          max_request_body_size = refl;
          client_ip_header = refl;
          pins =
              subst (λ p. PinsKept p p) (sym (from_config_ok u h i j f config clock first built).3)
                (
                  new-IsValid config.pinned_requests_per_window config.pinned_window_seconds,
                  refl,
                  refl,
                );
        })
        served
