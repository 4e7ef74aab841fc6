-- ===== src/Firewall/Concurrent.antt =====
-- `handle_request` (antelope-firewall-lib/src/firewall_builder.rs) cut at the places where other
-- requests can run: the stages of a request that is being handled, and what each does to the shared
-- firewall. A call of a rate limiter or of the pin limiter is one stage, since it holds its lock from
-- its start to its end; so is that of a filter, which only counts.
pub mod Places
pub mod Keeping
pub mod World
pub mod Sound
pub mod Opened
pub mod Reached
pub mod Pins
pub mod Alone
use antelope_firewall.Prelude.{
  ℕ, zero, suc, Option, none, some, List, [], ◌∷◌, Text, codes, if◌then◌else◌, get_elem?, find, ok,
  err,
}
use antelope_firewall.Node.{UrlApi, NodeEntry}
use antelope_firewall.Filter.{find_matching_urls}
use antelope_firewall.Filter
use antelope_firewall.Policy.{JsonApi, RequestInfo}
use antelope_firewall.RateLimiter.{
  F32, should_request_pass, left_by_panic, post_increment, should_run_before_request,
}
use antelope_firewall.Routing.{Order, choose}
use antelope_firewall.Upstream.{HeaderApi, IpApi}
use antelope_firewall.Firewall.Body.{too_big, body_bytes, body_json}
use antelope_firewall.Firewall.Route.{asked_node, limit_pin}
use antelope_firewall.Firewall.Headers.{response_headers}
use antelope_firewall.Firewall.Replies.{
  Reply, forwarded, get_ratelimit_response, get_blocked_response, get_options_response,
  get_error_response, too_big_response, body_error_text,
}
use antelope_firewall.Firewall.Handler.{
  Answer, is_options, AntelopeFirewall, Incoming, Surroundings, request_info, target_url,
  host_headers, forward_error,
}

-- A place of a list written anew.
abbrev pub set {ℓ} : {A : Type ℓ} → List A → ℕ → A → List A
set [] k y = []
set (x ∷ xs) zero y = y ∷ xs
set (x ∷ xs) (suc k) y = x ∷ set xs k y

module _ (u : UrlApi) (h : HeaderApi) (i : IpApi) (j : JsonApi) (f : F32) where
  open h use {Headers}
  open j use {Value, null, parse_json}

  -- What `handle_request` holds of a request once its body is read.
  pub record Pending : Type 0 where
    pub incoming : Incoming u h i j f
    pub info : RequestInfo
    pub bytes : Text
    pub json : Value

  -- The stages, with the place in the loop where there is one.
  pub data Task : Type 0 where
    arrived : Incoming u h i j f → i.Ip → Task
    screening : Pending → ℕ → Task
    limiting : Pending → ℕ → Task
    matching : Pending → Task
    pinning : Pending → List (NodeEntry u) → Task
    choosing : Pending → List (NodeEntry u) → Task
    sending : Pending → Option (NodeEntry u) → Task
    counting : RequestInfo → Value → Answer u h i j f → Reply Headers → ℕ → Task
    replied : Reply Headers → Task
    panicked : Task

  module _ (partial_cmp : f.Float → f.Float → Option Order) (hex_decode : Text → Option Text)
      (decode_trx : Text → Option Value) where
    -- The size check, the body and its value.
    unfoldable pub receive : AntelopeFirewall u h i j f → Incoming u h i j f → i.Ip → Task
    receive fw inc peer =
        if too_big inc.size_upper fw.max_request_body_size
        then replied too_big_response
        else elim (body_bytes inc.method inc.body) [
          | err e ↦ replied (get_error_response (body_error_text e))
          | ok bytes ↦ elim (body_json j hex_decode decode_trx inc.method bytes) [
            | err e ↦ replied (get_error_response (body_error_text e))
            | ok json ↦
                screening
                  (record {
                    incoming = inc;
                    info = request_info u h i j f fw inc peer;
                    bytes = bytes;
                    json = json;
                  })
                  0
          ]
        ]

    -- The call of one filter.
    unfoldable pub screen_one :
        AntelopeFirewall u h i j f → Pending → ℕ → AntelopeFirewall u h i j f × Task
    screen_one fw p k = elim (get_elem? fw.filters k) [
      | none ↦
          (fw, if is_options p.incoming.method then replied get_options_response else limiting p 0)
      | some g ↦
          let (g', passed) = Filter.should_request_pass null g p.info p.json in
          (
            record fw { filters = set fw.filters k g' },
            if passed then screening p (suc k) else replied get_blocked_response,
          )
    ]

    -- The call of one rate limiter.
    unfoldable pub limit_one :
        (ℕ → ℕ) → AntelopeFirewall u h i j f → Pending → ℕ → AntelopeFirewall u h i j f × Task
    limit_one clock fw p k = elim (get_elem? fw.ratelimiters k) [
      | none ↦ (fw, matching p)
      | some l ↦ elim (should_request_pass f null l p.info p.json clock) [
        | none ↦ (
          record fw {
            ratelimiters = set fw.ratelimiters k (left_by_panic f null l p.info p.json clock);
          },
          panicked,
        )
        | some (l', passed) ↦ (
          record fw { ratelimiters = set fw.ratelimiters k l' },
          if passed then limiting p (suc k) else replied (get_ratelimit_response l.window_duration),
        )
      ]
    ]

    unfoldable pub match_nodes : AntelopeFirewall u h i j f → Pending → Task
    match_nodes fw p = elim (find_matching_urls null fw.rules p.info p.json) [
      | [] ↦ replied (get_error_response (codes "Failed to find a route for your request."))
      | url ∷ urls ↦ pinning p (url ∷ urls)
    ]

    -- The call of the pin limiter.
    unfoldable pub pin_one :
        ℕ
        → AntelopeFirewall u h i j f
        → Pending
        → List (NodeEntry u)
        → AntelopeFirewall u h i j f × Task
    pin_one now fw p urls =
        let (pinned, limiter) = limit_pin u p.info now fw.pin_limiter (asked_node u p.info urls) in
        (
          record fw { pin_limiter = limiter },
          elim pinned [ none ↦ choosing p urls | some node ↦ sending p (some node) ],
        )

    unfoldable pub choose_one :
        (List ℕ → Option ℕ)
        → AntelopeFirewall u h i j f
        → Pending
        → List (NodeEntry u)
        → AntelopeFirewall u h i j f × Task
    choose_one sample fw p urls =
        elim (choose u f partial_cmp fw.routing_mode sample p.info.path urls) [
          | none ↦ (fw, panicked)
          | some (chosen, mode) ↦ (record fw { routing_mode = mode }, sending p chosen)
        ]

    -- The exchange with the node, which touches nothing that is shared.
    unfoldable pub send_one : Surroundings u h i j f → Pending → Option (NodeEntry u) → Task
    send_one env p chosen = elim (target_url u h i j f chosen p.info.path) [
      | none ↦ panicked
      | some url ↦ elim (host_headers u h i j f url p.incoming.headers) [
        | none ↦ panicked
        | some headers ↦ elim (env.send url headers p.bytes) [
          | none ↦ replied (forward_error u h i j f)
          | some r ↦ elim r.body [
            | none ↦ panicked
            | some bytes ↦ elim (parse_json bytes) [
              | none ↦ replied (forward_error u h i j f)
              | some value ↦
                  counting p.info p.json (value, r.status)
                    (forwarded r.status
                      (response_headers u h p.info.path r.answered_by chosen r.headers) bytes)
                    0
            ]
          ]
        ]
      ]
    ]

    -- One limiter is told of the answer.
    unfoldable pub count_one :
        AntelopeFirewall u h i j f
        → RequestInfo
        → Value
        → Answer u h i j f
        → Reply Headers
        → ℕ
        → AntelopeFirewall u h i j f × Task
    count_one fw req json a reply k = elim (get_elem? fw.ratelimiters k) [
      | none ↦ (fw, replied reply)
      | some l ↦ (
        record fw {
          ratelimiters = set fw.ratelimiters k (
              if should_run_before_request RequestInfo Value (Answer u h i j f) l.increment_mode
              then l
              else post_increment null l req json a);
        },
        counting req json a reply (suc k),
      )
    ]

    -- One stage, with the clocks, the draw and the nodes as they are then.
    unfoldable pub advance :
        Surroundings u h i j f
        → AntelopeFirewall u h i j f
        → Task
        → AntelopeFirewall u h i j f × Task
    advance env fw (arrived inc peer) = (fw, receive fw inc peer)
    advance env fw (screening p k) = screen_one fw p k
    advance env fw (limiting p k) = limit_one (env.clock k) fw p k
    advance env fw (matching p) = (fw, match_nodes fw p)
    advance env fw (pinning p urls) = pin_one env.pin_now fw p urls
    advance env fw (choosing p urls) = choose_one env.sample fw p urls
    advance env fw (sending p chosen) = (fw, send_one env p chosen)
    advance env fw (counting req json a reply k) = count_one fw req json a reply k
    advance env fw (replied reply) = (fw, replied reply)
    advance env fw panicked = (fw, panicked)
