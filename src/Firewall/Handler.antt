-- ===== src/Firewall/Handler.antt =====
-- `AntelopeFirewall::handle_request` (antelope-firewall-lib/src/firewall_builder.rs) from the first
-- check to the answer, and the builder of the firewall. The exchange with a
-- node is the parameter `send` of the surroundings of a request; `none` stands for a panic.
use antelope_firewall.Prelude.{
  ℕ, Bool, true, false, not, Option, none, some, List, [], ◌∷◌, ◌++◌, Text, codes, if◌then◌else◌,
  ok, err,
}
use antelope_firewall.Node.{UrlApi, NodeEntry}
use antelope_firewall.Filter.{Filter, Rule, find_matching_urls}
use antelope_firewall.Policy.{JsonApi, RequestInfo}
use antelope_firewall.PinLimiter.{PinLimiter}
use antelope_firewall.RateLimiter.{F32, RateLimiter}
use antelope_firewall.Routing.{RoutingModeState, Order}
use antelope_firewall.Upstream.{HeaderApi, IpApi, client_ip_from_headers}
use antelope_firewall.Firewall.Body.{Method, post, options, other, too_big, body_bytes, body_json}
use antelope_firewall.Firewall.Route.{choose_node}
use antelope_firewall.Firewall.Headers.{response_headers}
use antelope_firewall.Firewall.Loops.{run_filters, run_limiters, post_increments}
use antelope_firewall.Firewall.Replies.{
  Reply, forwarded, get_ratelimit_response, get_blocked_response, get_options_response,
  get_error_response, too_big_response, body_error_text,
}

abbrev pub is_options : Method → Bool
is_options post = false
is_options options = true
is_options other = false

module _ (u : UrlApi) (h : HeaderApi) (i : IpApi) (j : JsonApi) (f : F32) where
  open h use {Headers, from_str, insert}
  open j use {Value, null, parse_json}

  -- What the limiters that count after the answer see of it.
  abbrev pub Answer : Type 0
  Answer = Value × ℕ

  pub record AntelopeFirewall : Type 0 where
    pub filters : List (Filter RequestInfo Value)
    pub ratelimiters : List (RateLimiter RequestInfo Value Answer)
    pub rules : List (Rule RequestInfo Value (NodeEntry u))
    pub routing_mode : RoutingModeState
    pub max_request_body_size : ℕ
    pub client_ip_header : Option Text
    pub pin_limiter : Option PinLimiter

  unfoldable pub new : RoutingModeState → ℕ → Option Text → AntelopeFirewall
  new routing_mode max_request_body_size client_ip_header = record {
    filters = [];
    ratelimiters = [];
    rules = [];
    routing_mode = routing_mode;
    max_request_body_size = max_request_body_size;
    client_ip_header = client_ip_header;
    pin_limiter = none;
  }

  -- The builder, each step behind those before it.
  unfoldable pub add_filter : AntelopeFirewall → Filter RequestInfo Value → AntelopeFirewall
  add_filter fw filter = record fw { filters = fw.filters ++ filter ∷ [] }

  unfoldable pub add_ratelimiter :
      AntelopeFirewall → RateLimiter RequestInfo Value Answer → AntelopeFirewall
  add_ratelimiter fw limiter = record fw { ratelimiters = fw.ratelimiters ++ limiter ∷ [] }

  unfoldable pub set_pin_limiter : AntelopeFirewall → PinLimiter → AntelopeFirewall
  set_pin_limiter fw limiter = record fw { pin_limiter = some limiter }

  unfoldable pub add_matching_rule :
      AntelopeFirewall → Rule RequestInfo Value (NodeEntry u) → AntelopeFirewall
  add_matching_rule fw rule = record fw { rules = fw.rules ++ rule ∷ [] }

  -- A request as it arrives; `body` is `none` where reading it fails.
  pub record Incoming : Type 0 where
    pub method : Method
    pub path : Text
    pub query : Option Text
    pub headers : Headers
    pub size_upper : Option ℕ
    pub body : Option Text

  pub record NodeResponse : Type 0 where
    pub status : ℕ
    pub answered_by : u.Url
    pub headers : Headers
    pub body : Option Text

  -- What a request meets: the clocks, the random draw, and the nodes.
  pub record Surroundings : Type 0 where
    pub clock : ℕ → ℕ → ℕ
    pub pin_now : ℕ
    pub sample : List ℕ → Option ℕ
    pub send : u.Url → Headers → Text → Option NodeResponse

  unfoldable pub request_info : AntelopeFirewall → Incoming → i.Ip → RequestInfo
  request_info fw inc peer = record {
    path = inc.path;
    query = inc.query;
    ip = i.show_ip (client_ip_from_headers h i fw.client_ip_header inc.headers peer);
  }

  -- The url that the request is sent to; `none` where the fallback does not parse.
  unfoldable pub target_url : Option (NodeEntry u) → Text → Option u.Url
  target_url (some node) path = some (u.set_query (u.set_path node.url path) none)
  target_url none path = elim (u.parse (codes "https://127.0.0.1/")) [
    | none ↦ none
    | some url ↦ some (u.set_query (u.set_path url path) none)
  ]

  -- The headers that are sent: the client's, with the node's host.
  unfoldable pub host_headers : u.Url → Headers → Option Headers
  host_headers url headers = elim (u.host_str url) [
    | none ↦ some headers
    | some host ↦ elim (from_str host) [
      | none ↦ none
      | some value ↦ some (insert headers (codes "Host") value)
    ]
  ]

  abbrev pub forward_error : Reply Headers
  forward_error = get_error_response (codes "Error forwarding request.")

  -- The answer of the node, and the limiters after it.
  unfoldable pub answer :
      AntelopeFirewall
      → RequestInfo
      → Value
      → Option (NodeEntry u)
      → NodeResponse
      → Option (AntelopeFirewall × Reply Headers)
  answer fw req json chosen r = elim r.body [
    | none ↦ none
    | some bytes ↦ elim (parse_json bytes) [
      | none ↦ some (fw, forward_error)
      | some value ↦ some (
        record fw {
          ratelimiters = post_increments null fw.ratelimiters req json (value, r.status);
        },
        forwarded r.status (response_headers u h req.path r.answered_by chosen r.headers) bytes,
      )
    ]
  ]

  -- The exchange with the chosen node.
  unfoldable pub forward :
      AntelopeFirewall
      → Incoming
      → RequestInfo
      → Text
      → Value
      → Option (NodeEntry u)
      → Surroundings
      → Option (AntelopeFirewall × Reply Headers)
  forward fw inc req bytes json chosen env = elim (target_url chosen req.path) [
    | none ↦ none
    | some url ↦ elim (host_headers url inc.headers) [
      | none ↦ none
      | some headers ↦ elim (env.send url headers bytes) [
        | none ↦ some (fw, forward_error)
        | some r ↦ answer fw req json chosen r
      ]
    ]
  ]

  module _ (partial_cmp : f.Float → f.Float → Option Order) where
    -- The matching, the choice of a node and the exchange.
    unfoldable pub route :
        AntelopeFirewall
        → Incoming
        → RequestInfo
        → Text
        → Value
        → Surroundings
        → Option (AntelopeFirewall × Reply Headers)
    route fw inc req bytes json env = elim (find_matching_urls null fw.rules req json) [
      | [] ↦ some (fw, get_error_response (codes "Failed to find a route for your request."))
      | url ∷ urls ↦
          elim (choose_node u f partial_cmp req env.pin_now env.sample fw.pin_limiter
            fw.routing_mode (url ∷ urls)) [
              | none ↦ none
              | some (chosen, limiter, mode) ↦
                  forward (record fw { pin_limiter = limiter; routing_mode = mode }) inc req bytes
                    json chosen env
            ]
    ]

    -- The rate limiters, and what follows.
    unfoldable pub limit :
        AntelopeFirewall
        → Incoming
        → RequestInfo
        → Text
        → Value
        → Surroundings
        → Option (AntelopeFirewall × Reply Headers)
    limit fw inc req bytes json env =
        elim (run_limiters null f fw.ratelimiters req json env.clock) [
          | none ↦ none
          | some (ls, refused) ↦ elim refused [
            | some window ↦ some (record fw { ratelimiters = ls }, get_ratelimit_response window)
            | none ↦ route (record fw { ratelimiters = ls }) inc req bytes json env
          ]
        ]

    -- The filters, the answer to OPTIONS, and what follows.
    unfoldable pub screen :
        AntelopeFirewall
        → Incoming
        → RequestInfo
        → Text
        → Value
        → Surroundings
        → Option (AntelopeFirewall × Reply Headers)
    screen fw inc req bytes json env =
        let (fs, passed) = run_filters null fw.filters req json in
        let fw' = record fw { filters = fs } in
        if not passed
        then some (fw', get_blocked_response)
        else if is_options inc.method
        then some (fw', get_options_response)
        else limit fw' inc req bytes json env

    module _ (hex_decode : Text → Option Text) (decode_trx : Text → Option Value) where
      unfoldable pub handle_request :
          AntelopeFirewall
          → Incoming
          → i.Ip
          → Surroundings
          → Option (AntelopeFirewall × Reply Headers)
      handle_request fw inc peer env =
          if too_big inc.size_upper fw.max_request_body_size
          then some (fw, too_big_response)
          else elim (body_bytes inc.method inc.body) [
            | err e ↦ some (fw, get_error_response (body_error_text e))
            | ok bytes ↦ elim (body_json j hex_decode decode_trx inc.method bytes) [
              | err e ↦ some (fw, get_error_response (body_error_text e))
              | ok json ↦ screen fw inc (request_info fw inc peer) bytes json env
            ]
          ]
