-- ===== src/Firewall/Serving/Keeping.antt =====
-- A property of the firewall that each of the four writes of `handle_request`
-- (antelope-firewall-lib/src/firewall_builder.rs) keeps is kept by the whole request.
use antelope_firewall.Prelude.{
  ℕ, ◌≡◌, subst, inl, inr, Option, some, List, [], ◌∷◌, arith, Text, Bool-cases, Option-cases,
  List-cases, Result-cases,
}
use antelope_firewall.Node.{UrlApi, NodeEntry}
use antelope_firewall.Filter.{find_matching_urls}
use antelope_firewall.Policy.{JsonApi, RequestInfo}
use antelope_firewall.PinLimiter.{PinLimiter}
use antelope_firewall.RateLimiter.{F32, RateLimiter}
use antelope_firewall.Routing.{RoutingModeState, Order}
use antelope_firewall.Upstream.{HeaderApi, IpApi}
use antelope_firewall.Firewall.Body.{too_big, body_bytes, body_json}
use antelope_firewall.Firewall.Route.{choose_node}
use antelope_firewall.Firewall.Replies.{Reply}
use antelope_firewall.Firewall.Loops.{run_filters, run_limiters, post_increments}
use antelope_firewall.Firewall.Handler.{
  Answer, is_options, AntelopeFirewall, Incoming, NodeResponse, Surroundings, request_info,
  target_url, host_headers, answer, forward, route, limit, screen, handle_request,
}
use antelope_firewall.Firewall.Serving.{Visit, serve}

module _ (u : UrlApi) (h : HeaderApi) (i : IpApi) (j : JsonApi) (f : F32)
    (partial_cmp : f.Float → f.Float → Option Order) where
  open h use {Headers}
  open j use {Value, null}

  pub record Keeps (P : AntelopeFirewall u h i j f → Type 0) : Type 0 where
    pub filters :
        (fw : AntelopeFirewall u h i j f) (req : RequestInfo) (json : Value)
        → P fw
        → P (record fw { filters = (run_filters null fw.filters req json).0 })
    pub limiters :
        (fw : AntelopeFirewall u h i j f) (req : RequestInfo) (json : Value) (clock : ℕ → ℕ → ℕ)
        (ls : List (RateLimiter RequestInfo Value (Answer u h i j f))) (refused : Option ℕ)
        → run_limiters null f fw.ratelimiters req json clock ≡ some (ls, refused)
        → P fw
        → P (record fw { ratelimiters = ls })
    pub routing :
        (fw : AntelopeFirewall u h i j f) (req : RequestInfo) (now : ℕ) (sample : List ℕ → Option ℕ)
        (urls : List (NodeEntry u)) (chosen : Option (NodeEntry u)) (limiter : Option PinLimiter)
        (mode : RoutingModeState)
        → choose_node u f partial_cmp req now sample fw.pin_limiter fw.routing_mode urls
          ≡ some (chosen, limiter, mode)
        → P fw
        → P (record fw { pin_limiter = limiter; routing_mode = mode })
    pub answers :
        (fw : AntelopeFirewall u h i j f) (req : RequestInfo) (json : Value) (a : Answer u h i j f)
        → P fw
        → P (record fw { ratelimiters = post_increments null fw.ratelimiters req json a })

  module _ (P : AntelopeFirewall u h i j f → Type 0) (k : Keeps P) where
    answer-Keeps :
        (fw fw' : AntelopeFirewall u h i j f) (req : RequestInfo) (json : Value)
        (chosen : Option (NodeEntry u)) (r : NodeResponse u h i j f) (reply : Reply Headers)
        → P fw
        → answer u h i j f fw req json chosen r ≡ some (fw', reply)
        → P fw'
    unfolding answer
    answer-Keeps fw fw' req json chosen r reply p e = elim (Option-cases r.body) [
      | inl q ↦ ground (arith, e, q)
      | inr (body, q) ↦ elim (Option-cases (j.parse_json body)) [
        | inl t ↦ subst P (ground (arith, e, q, t)) p
        | inr (v, t) ↦ subst P (ground (arith, e, q, t)) (k.answers fw req json (v, r.status) p)
      ]
    ]

    forward-Keeps :
        (fw fw' : AntelopeFirewall u h i j f) (inc : Incoming u h i j f) (req : RequestInfo)
        (bytes : Text) (json : Value) (chosen : Option (NodeEntry u)) (env : Surroundings u h i j f)
        (reply : Reply Headers)
        → P fw
        → forward u h i j f fw inc req bytes json chosen env ≡ some (fw', reply)
        → P fw'
    unfolding forward
    forward-Keeps fw fw' inc req bytes json chosen env reply p e =
        elim (Option-cases (target_url u h i j f chosen req.path)) [
          | inl q ↦ ground (arith, e, q)
          | inr (url, q) ↦ elim (Option-cases (host_headers u h i j f url inc.headers)) [
            | inl t ↦ ground (arith, e, q, t)
            | inr (sent, t) ↦ elim (Option-cases (env.send url sent bytes)) [
              | inl s ↦ subst P (ground (arith, e, q, t, s)) p
              | inr (r, s) ↦
                  answer-Keeps fw fw' req json chosen r reply p (ground (arith, e, q, t, s))
            ]
          ]
        ]

    route-Keeps :
        (fw fw' : AntelopeFirewall u h i j f) (inc : Incoming u h i j f) (req : RequestInfo)
        (bytes : Text) (json : Value) (env : Surroundings u h i j f) (reply : Reply Headers)
        → P fw
        → route u h i j f partial_cmp fw inc req bytes json env ≡ some (fw', reply)
        → P fw'
    unfolding route
    route-Keeps fw fw' inc req bytes json env reply p e =
        elim (List-cases (find_matching_urls null fw.rules req json)) [
          | inl q ↦ subst P (ground (arith, e, q)) p
          | inr (x, xs, q) ↦
              elim (Option-cases (
                choose_node u f partial_cmp req env.pin_now env.sample fw.pin_limiter
                  fw.routing_mode (x ∷ xs))) [
                    | inl t ↦ ground (arith, e, q, t)
                    | inr ((chosen, limiter, mode), t) ↦
                        forward-Keeps (record fw { pin_limiter = limiter; routing_mode = mode }) fw'
                          inc req bytes json chosen env reply
                          (k.routing fw req env.pin_now env.sample (x ∷ xs) chosen limiter mode t p)
                          (ground (arith, e, q, t))
                  ]
        ]

    limit-Keeps :
        (fw fw' : AntelopeFirewall u h i j f) (inc : Incoming u h i j f) (req : RequestInfo)
        (bytes : Text) (json : Value) (env : Surroundings u h i j f) (reply : Reply Headers)
        → P fw
        → limit u h i j f partial_cmp fw inc req bytes json env ≡ some (fw', reply)
        → P fw'
    unfolding limit
    limit-Keeps fw fw' inc req bytes json env reply p e =
        elim (Option-cases (run_limiters null f fw.ratelimiters req json env.clock)) [
          | inl q ↦ ground (arith, e, q)
          | inr ((ls, refused), q) ↦
              let p' = k.limiters fw req json env.clock ls refused q p in
              elim (Option-cases refused) [
                | inl t ↦
                    route-Keeps (record fw { ratelimiters = ls }) fw' inc req bytes json env reply
                      p' (ground (arith, e, q, t))
                | inr (w, t) ↦ subst P (ground (arith, e, q, t)) p'
              ]
        ]

    screen-Keeps :
        (fw fw' : AntelopeFirewall u h i j f) (inc : Incoming u h i j f) (req : RequestInfo)
        (bytes : Text) (json : Value) (env : Surroundings u h i j f) (reply : Reply Headers)
        → P fw
        → screen u h i j f partial_cmp fw inc req bytes json env ≡ some (fw', reply)
        → P fw'
    unfolding screen
    screen-Keeps fw fw' inc req bytes json env reply p e =
        let fs = run_filters null fw.filters req json in
        let p' = k.filters fw req json p in
        elim (Bool-cases fs.1) [
          | inr s ↦ subst P (ground (arith, e, s)) p'
          | inl s ↦ elim (Bool-cases (is_options inc.method)) [
            | inl o ↦ subst P (ground (arith, e, s, o)) p'
            | inr o ↦
                limit-Keeps (record fw { filters = fs.0 }) fw' inc req bytes json env reply p'
                  (ground (arith, e, s, o))
          ]
        ]

    module _ (hex_decode : Text → Option Text) (decode_trx : Text → Option Value) where
      pub handle_request-Keeps :
          (fw fw' : AntelopeFirewall u h i j f) (inc : Incoming u h i j f) (peer : i.Ip)
          (env : Surroundings u h i j f) (reply : Reply Headers)
          → P fw
          → handle_request u h i j f partial_cmp hex_decode decode_trx fw inc peer env
            ≡ some (fw', reply)
          → P fw'
      unfolding handle_request
      handle_request-Keeps fw fw' inc peer env reply p e =
          elim (Bool-cases (too_big inc.size_upper fw.max_request_body_size)) [
            | inl t ↦ subst P (ground (arith, e, t)) p
            | inr t ↦ elim (Result-cases (body_bytes inc.method inc.body)) [
              | inr (er, q) ↦ subst P (ground (arith, e, t, q)) p
              | inl (bytes, q) ↦
                  elim (Result-cases (body_json j hex_decode decode_trx inc.method bytes)) [
                    | inr (er, r) ↦ subst P (ground (arith, e, t, q, r)) p
                    | inl (json, r) ↦
                        screen-Keeps fw fw' inc (request_info u h i j f fw inc peer) bytes json env
                          reply p (ground (arith, e, t, q, r))
                  ]
            ]
          ]

      -- And by any number of requests.
      pub serve-Keeps :
          (fw fw' : AntelopeFirewall u h i j f) (vs : List (Visit u h i j f))
          → P fw
          → serve u h i j f partial_cmp hex_decode decode_trx fw vs ≡ some fw'
          → P fw'
      unfolding serve
      serve-Keeps fw fw' [] p e = subst P (ground (arith, e)) p
      serve-Keeps fw fw' (v ∷ vs) p e =
          elim (Option-cases (
            handle_request u h i j f partial_cmp hex_decode decode_trx fw v.incoming v.peer
              v.surroundings)) [
                | inl q ↦ ground (arith, e, q)
                | inr ((next, reply), q) ↦
                    serve-Keeps next fw' vs
                      (handle_request-Keeps fw next v.incoming v.peer v.surroundings reply p q)
                      (ground (arith, e, q))
              ]
