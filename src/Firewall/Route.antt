-- ===== src/Firewall/Route.antt =====
-- The choice of a node in `handle_request` (antelope-firewall-lib/src/firewall_builder.rs): the pin
-- a client asks for, the pin limiter, and the routing mode.
use antelope_firewall.Prelude.{
  ℕ, ◌≡◌, ap, ◌∙◌, inl, inr, false, Option, none, some, List, arith, if◌then◌else◌, In, Bool-cases,
  Option-cases,
}
use antelope_firewall.Node.{UrlApi, NodeEntry}
use antelope_firewall.PinLimiter.{PinLimiter, admits}
use antelope_firewall.PinLimiter.Key.{pin_key}
use antelope_firewall.Policy.{RequestInfo, bind_option}
use antelope_firewall.RateLimiter.{F32}
use antelope_firewall.Routing.{RoutingModeState, Order, choose}
use antelope_firewall.Routing.Choice.{choose-In}
use antelope_firewall.Upstream.{requested_upstream, find_pinned}
use antelope_firewall.Upstream.Pinned.{find_pinned-Bears}
use antelope_firewall.Config.Endpoints.{is_get}

module _ (u : UrlApi) where
  -- The node of the matched set that the request asks for.
  unfoldable pub asked_node : RequestInfo → List (NodeEntry u) → Option (NodeEntry u)
  asked_node req urls =
      bind_option (requested_upstream req.path req.query) (λ name. find_pinned u name urls)

  -- The pin after the limiter, and the limiter after it.
  unfoldable pub limit_pin :
      RequestInfo
      → ℕ
      → Option PinLimiter
      → Option (NodeEntry u)
      → Option (NodeEntry u) × Option PinLimiter
  limit_pin req now limiter none = (none, limiter)
  limit_pin req now none (some node) = (some node, none)
  limit_pin req now (some l) (some node) =
      let (l', ok') = admits l (pin_key req.ip node.name) now in
      (if ok' then some node else none, some l')

  module _ (f : F32) (partial_cmp : f.Float → f.Float → Option Order) where
    -- The chosen node, with the pin limiter and the routing counters after it; `none` is a panic.
    unfoldable pub choose_node :
        RequestInfo
        → ℕ
        → (List ℕ → Option ℕ)
        → Option PinLimiter
        → RoutingModeState
        → List (NodeEntry u)
        → Option (Option (NodeEntry u) × Option PinLimiter × RoutingModeState)
    choose_node req now sample limiter mode urls =
        let (pinned, limiter') = limit_pin req now limiter (asked_node req urls) in
        elim pinned [
          | some node ↦ some (some node, limiter', mode)
          | none ↦ elim (choose u f partial_cmp mode sample req.path urls) [
            | none ↦ none
            | some (chosen, mode') ↦ some (chosen, limiter', mode')
          ]
        ]

  pub asked_node-In :
      (req : RequestInfo) (urls : List (NodeEntry u)) {e : NodeEntry u}
      → asked_node req urls ≡ some e
      → In e urls
  unfolding asked_node
  asked_node-In req urls {e} h = elim (Option-cases (requested_upstream req.path req.query)) [
    | inl q ↦ ground (arith, q)
    | inr (name, q) ↦ (find_pinned-Bears u name urls {e = e} (rw q at h)).0
  ]

  asked_node-write :
      (req : RequestInfo) (urls : List (NodeEntry u))
      → is_get req.path ≡ false
      → asked_node req urls ≡ none
  unfolding asked_node requested_upstream
  asked_node-write req urls w = ground arith

  pub limit_pin-asked :
      (req : RequestInfo) (now : ℕ) (limiter : Option PinLimiter) (asked : Option (NodeEntry u))
      (e : NodeEntry u)
      → (limit_pin req now limiter asked).0 ≡ some e
      → asked ≡ some e
  unfolding limit_pin
  limit_pin-asked req now limiter none e h = cc
  limit_pin-asked req now none (some x) e h = h
  limit_pin-asked req now (some l) (some x) e h =
      elim (Bool-cases (admits l (pin_key req.ip x.name) now).1) [
        | inl t ↦ ground (arith, t)
        | inr t ↦ ground (arith, t)
      ]

  module _ (f : F32) (partial_cmp : f.Float → f.Float → Option Order) where
    -- Whatever the request asks for, the pin limiter and the routing mode answer, a chosen node is
    -- one of the matched nodes: a pin never reaches a node that the matching left out.
    pub choose_node-In :
        (req : RequestInfo) (now : ℕ) (sample : List ℕ → Option ℕ) (limiter : Option PinLimiter)
        (mode : RoutingModeState) (urls : List (NodeEntry u)) (e : NodeEntry u)
        (limiter' : Option PinLimiter) (mode' : RoutingModeState)
        → choose_node f partial_cmp req now sample limiter mode urls
          ≡ some (some e, limiter', mode')
        → In e urls
    unfolding choose_node
    choose_node-In req now sample limiter mode urls e limiter' mode' h =
        elim (Option-cases (limit_pin req now limiter (asked_node req urls)).0) [
          | inl q ↦ elim (Option-cases (choose u f partial_cmp mode sample req.path urls)) [
            | inl c ↦ ground (arith, q, c)
            | inr ((chosen, m), c) ↦
                let p : chosen ≡ some e = ground (arith, q, c) in
                choose-In u f partial_cmp mode sample req.path urls e m
                  (c ∙ ap (λ z. some (z, m)) p)
          ]
          | inr (x, q) ↦
              let p : x ≡ e = ground (arith, q) in
              asked_node-In req urls {e = e}
                (limit_pin-asked req now limiter (asked_node req urls) e (q ∙ ap some p))
        ]

    -- A request that is no read cannot pin: whatever its query, the node is the routing mode's
    -- choice, and the pin limiter counts nothing.
    pub choose_node-write :
        (req : RequestInfo) (now : ℕ) (sample : List ℕ → Option ℕ) (limiter : Option PinLimiter)
        (mode : RoutingModeState) (urls : List (NodeEntry u))
        → is_get req.path ≡ false
        → choose_node f partial_cmp req now sample limiter mode urls
          ≡ bind_option
              (choose u f partial_cmp mode sample req.path urls)
              (λ (chosen, mode'). some (chosen, limiter, mode'))
    unfolding choose_node limit_pin
    choose_node-write req now sample limiter mode urls w =
        let a = asked_node-write req urls w in
        elim (Option-cases (choose u f partial_cmp mode sample req.path urls)) [
          | inl c ↦ ground (arith, a, c)
          | inr (r, c) ↦ ground (arith, a, c)
        ]

    -- A read that asks for a matched node over its client's ceiling, or with no room for its
    -- counter, is not refused: the routing mode picks, as for a request that names nothing.
    pub choose_node-over_ceiling :
        (req : RequestInfo) (now : ℕ) (sample : List ℕ → Option ℕ) (l : PinLimiter)
        (mode : RoutingModeState) (urls : List (NodeEntry u)) (node : NodeEntry u)
        → asked_node req urls ≡ some node
        → (admits l (pin_key req.ip node.name) now).1 ≡ false
        → choose_node f partial_cmp req now sample (some l) mode urls
          ≡ bind_option (choose u f partial_cmp mode sample req.path urls) (λ (chosen, mode').
            some (chosen, some (admits l (pin_key req.ip node.name) now).0, mode'))
    unfolding choose_node limit_pin
    choose_node-over_ceiling req now sample l mode urls node a full =
        elim (Option-cases (choose u f partial_cmp mode sample req.path urls)) [
          | inl c ↦ ground (arith, a, full, c)
          | inr (r, c) ↦ ground (arith, a, full, c)
        ]
