-- ===== src/Firewall/Refusing.antt =====
-- What a request that `handle_request` (antelope-firewall-lib/src/firewall_builder.rs) answers
-- itself leaves behind.
use antelope_firewall.Prelude.{
  List-cases, ℕ, ◌≡◌, refl, sym, ap, ◌∙◌, ◌≢◌, ◌⊎◌, ok, inl, inr, true, Option, some, List, [], ◌∷◌,
  arith, Text, codes, Bool-cases, Option-cases, Result-cases,
}
use antelope_firewall.Node.{UrlApi, NodeEntry}
use antelope_firewall.Filter.{find_matching_urls}
use antelope_firewall.Policy.{JsonApi, RequestInfo}
use antelope_firewall.RateLimiter.{F32}
use antelope_firewall.Routing.{Order}
use antelope_firewall.Upstream.{HeaderApi, IpApi}
use antelope_firewall.Firewall.Body.{too_big, body_bytes, body_json}
use antelope_firewall.Firewall.Route.{choose_node}
use antelope_firewall.Firewall.Replies.{
  Field, text_field, plain_text, Reply, body_error_text, own, get_blocked_response,
  get_options_response, get_error_response, too_big_response,
}
use antelope_firewall.Firewall.Loops.{run_filters, run_limiters}
use antelope_firewall.Firewall.Handler.{
  is_options, AntelopeFirewall, Incoming, NodeResponse, Surroundings, request_info, target_url,
  host_headers, answer, forward, route, limit, screen, handle_request,
}

module _ (u : UrlApi) (h : HeaderApi) (i : IpApi) (j : JsonApi) (f : F32)
    (partial_cmp : f.Float → f.Float → Option Order) where
  open h use {Headers}
  open j use {Value, null}

  -- The pin limiter and the routing counters stand as they were.
  abbrev pub SameRouting : AntelopeFirewall u h i j f → AntelopeFirewall u h i j f → Type 0
  SameRouting fw fw' = (fw'.pin_limiter ≡ fw.pin_limiter) × (fw'.routing_mode ≡ fw.routing_mode)

  answer-own :
      (fw fw' : AntelopeFirewall u h i j f) (req : RequestInfo) (json : Value)
      (chosen : Option (NodeEntry u)) (r : NodeResponse u h i j f) (status : ℕ)
      (fields : List Field) (b : Text)
      → answer u h i j f fw req json chosen r ≡ some (fw', own status fields b)
      → status ≡ 500
  unfolding answer get_error_response
  answer-own fw fw' req json chosen r status fields b e = elim (Option-cases r.body) [
    | inl q ↦ ground (arith, e, q)
    | inr (body, q) ↦ elim (Option-cases (j.parse_json body)) [
      | inl p ↦ ground (arith, e, q, p)
      | inr (v, p) ↦ ground (arith, e, q, p)
    ]
  ]

  forward-own :
      (fw fw' : AntelopeFirewall u h i j f) (inc : Incoming u h i j f) (req : RequestInfo)
      (bytes : Text) (json : Value) (chosen : Option (NodeEntry u)) (env : Surroundings u h i j f)
      (status : ℕ) (fields : List Field) (b : Text)
      → forward u h i j f fw inc req bytes json chosen env ≡ some (fw', own status fields b)
      → status ≡ 500
  unfolding forward get_error_response
  forward-own fw fw' inc req bytes json chosen env status fields b e =
      elim (Option-cases (target_url u h i j f chosen req.path)) [
        | inl q ↦ ground (arith, e, q)
        | inr (url, q) ↦ elim (Option-cases (host_headers u h i j f url inc.headers)) [
          | inl p ↦ ground (arith, e, q, p)
          | inr (sent, p) ↦ elim (Option-cases (env.send url sent bytes)) [
            | inl s ↦ ground (arith, e, q, p, s)
            | inr (r, s) ↦
                answer-own fw fw' req json chosen r status fields b (ground (arith, e, q, p, s))
          ]
        ]
      ]

  -- A 500 to a request for which nodes were matched.
  abbrev pub Matched : AntelopeFirewall u h i j f → RequestInfo → Value → ℕ → Type 0
  Matched fw req json status = (status ≡ 500) × (find_matching_urls null fw.rules req json ≢ [])

  route-own :
      (fw fw' : AntelopeFirewall u h i j f) (inc : Incoming u h i j f) (req : RequestInfo)
      (bytes : Text) (json : Value) (env : Surroundings u h i j f) (status : ℕ)
      (fields : List Field) (b : Text)
      → route u h i j f partial_cmp fw inc req bytes json env ≡ some (fw', own status fields b)
      → SameRouting fw fw' ⊎ Matched fw req json status
  unfolding route get_error_response
  route-own fw fw' inc req bytes json env status fields b e =
      elim (List-cases (find_matching_urls null fw.rules req json)) [
        | inl q ↦ inl (ground (arith, e, q))
        | inr (x, xs, q) ↦
            elim (Option-cases (
              choose_node u f partial_cmp req env.pin_now env.sample fw.pin_limiter fw.routing_mode
                (x ∷ xs))) [
                  | inl p ↦ ground (arith, e, q, p)
                  | inr ((chosen, limiter, mode), p) ↦ inr (
                    forward-own (record fw { pin_limiter = limiter; routing_mode = mode }) fw' inc
                        req bytes json chosen env status fields b (ground (arith, e, q, p)),
                    λ n. cc (n, q),
                  )
                ]
      ]

  limit-own :
      (fw fw' : AntelopeFirewall u h i j f) (inc : Incoming u h i j f) (req : RequestInfo)
      (bytes : Text) (json : Value) (env : Surroundings u h i j f) (status : ℕ)
      (fields : List Field) (b : Text)
      → limit u h i j f partial_cmp fw inc req bytes json env ≡ some (fw', own status fields b)
      → SameRouting fw fw' ⊎ Matched fw req json status
  unfolding limit
  limit-own fw fw' inc req bytes json env status fields b e =
      elim (Option-cases (run_limiters null f fw.ratelimiters req json env.clock)) [
        | inl q ↦ ground (arith, e, q)
        | inr ((ls, refused), q) ↦ elim (Option-cases refused) [
          | inl p ↦
              route-own (record fw { ratelimiters = ls }) fw' inc req bytes json env status fields b
                (ground (arith, e, q, p))
          | inr (w, p) ↦ inl (ground (arith, e, q, p))
        ]
      ]

  answered :
      (fw fw' : AntelopeFirewall u h i j f) (reply : Reply Headers)
      (kept : AntelopeFirewall u h i j f) (status : ℕ) (fields : List Field) (b : Text)
      → (kept.ratelimiters ≡ fw.ratelimiters) × SameRouting fw kept
      → ◌≡◌ {A = Option (AntelopeFirewall u h i j f × Reply Headers)}
          (some (kept, own status fields b))
          (some (fw', reply))
      → (fw'.ratelimiters ≡ fw.ratelimiters)
        × SameRouting fw fw'
        × ((status : ℕ) × (fields : List Field) × (b : Text) × (reply ≡ own status fields b))
  answered fw fw' reply kept status fields b (ls, (pins, mode)) e =
      let same : kept ≡ fw' = ground arith in
      (
        ap (λ (k : AntelopeFirewall u h i j f). k.ratelimiters) (sym same) ∙ ls,
        (
          ap (λ (k : AntelopeFirewall u h i j f). k.pin_limiter) (sym same) ∙ pins,
          ap (λ (k : AntelopeFirewall u h i j f). k.routing_mode) (sym same) ∙ mode,
        ),
        (status, fields, b, ground arith),
      )

  module _ (hex_decode : Text → Option Text) (decode_trx : Text → Option Value) where
    -- A request that the firewall answers itself counts no pin and moves no routing counter, unless
    -- the answer is a 500 to a request whose body was read and parsed and for which nodes were
    -- matched: so no refusal does, and no error for a body that cannot be read or parsed, or for
    -- want of a route.
    pub handle_request-own :
        (fw fw' : AntelopeFirewall u h i j f) (inc : Incoming u h i j f) (peer : i.Ip)
        (env : Surroundings u h i j f) (status : ℕ) (fields : List Field) (b : Text)
        → handle_request u h i j f partial_cmp hex_decode decode_trx fw inc peer env
          ≡ some (fw', own status fields b)
        → SameRouting fw fw'
          ⊎ ((bytes : Text) × (json : Value) × (body_bytes inc.method inc.body ≡ ok bytes)
              × (body_json j hex_decode decode_trx inc.method bytes ≡ ok json)
              × Matched fw (request_info u h i j f fw inc peer) json status)
    unfolding handle_request screen get_error_response
    handle_request-own fw fw' inc peer env status fields b e =
        elim (Bool-cases (too_big inc.size_upper fw.max_request_body_size)) [
          | inl t ↦ inl (ground (arith, e, t))
          | inr t ↦ elim (Result-cases (body_bytes inc.method inc.body)) [
            | inr (er, q) ↦ inl (ground (arith, e, t, q))
            | inl (bytes, q) ↦
                elim (Result-cases (body_json j hex_decode decode_trx inc.method bytes)) [
                  | inr (er, p) ↦ inl (ground (arith, e, t, q, p))
                  | inl (json, p) ↦
                      let req = request_info u h i j f fw inc peer in
                      let fs = run_filters null fw.filters req json in
                      elim (Bool-cases fs.1) [
                        | inr s ↦ inl (ground (arith, e, t, q, p, s))
                        | inl s ↦ elim (Bool-cases (is_options inc.method)) [
                          | inl o ↦ inl (ground (arith, e, t, q, p, s, o))
                          | inr o ↦
                              elim (limit-own (record fw { filters = fs.0 }) fw' inc req bytes json
                                env status fields b (ground (arith, e, t, q, p, s, o))) [
                                  | inl same ↦ inl same
                                  | inr m ↦ inr (bytes, json, q, p, m)
                                ]
                        ]
                      ]
                ]
          ]
        ]

    -- A preflight (OPTIONS) is never limited and never forwarded: the firewall answers it itself,
    -- and the rate limiters, the pin limiter and the routing counters stand as they were.
    pub handle_request-options :
        (fw fw' : AntelopeFirewall u h i j f) (inc : Incoming u h i j f) (peer : i.Ip)
        (env : Surroundings u h i j f) (reply : Reply Headers)
        → is_options inc.method ≡ true
        → handle_request u h i j f partial_cmp hex_decode decode_trx fw inc peer env
          ≡ some (fw', reply)
        → (fw'.ratelimiters ≡ fw.ratelimiters)
          × SameRouting fw fw'
          × ((status : ℕ) × (fields : List Field) × (b : Text) × (reply ≡ own status fields b))
    unfolding handle_request screen get_error_response get_blocked_response get_options_response
        too_big_response
    handle_request-options fw fw' inc peer env reply o e =
        let leaf = answered fw fw' reply in
        elim (Bool-cases (too_big inc.size_upper fw.max_request_body_size)) [
          | inl t ↦
              leaf fw 413 [] (codes "Body too big") (refl, (refl, refl)) (ground (arith, e, t))
          | inr t ↦ elim (Result-cases (body_bytes inc.method inc.body)) [
            | inr (er, q) ↦
                leaf fw 500 (plain_text ∷ []) (body_error_text er) (refl, (refl, refl))
                  (ground (arith, e, t, q))
            | inl (bytes, q) ↦
                elim (Result-cases (body_json j hex_decode decode_trx inc.method bytes)) [
                  | inr (er, p) ↦
                      leaf fw 500 (plain_text ∷ []) (body_error_text er) (refl, (refl, refl))
                        (ground (arith, e, t, q, p))
                  | inl (json, p) ↦
                      let fs =
                        run_filters null fw.filters (request_info u h i j f fw inc peer) json in
                      elim (Bool-cases fs.1) [
                        | inr s ↦
                            leaf (record fw { filters = fs.0 }) 403 (plain_text ∷ []) []
                              (refl, (refl, refl)) (ground (arith, e, t, q, p, s))
                        | inl s ↦
                            leaf (record fw { filters = fs.0 }) 200
                              (text_field (codes "Allow") (codes "OPTIONS, GET, POST") ∷ []) []
                              (refl, (refl, refl)) (ground (arith, e, t, q, p, s, o))
                      ]
                ]
          ]
        ]
