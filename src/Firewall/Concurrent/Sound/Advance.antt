-- ===== src/Firewall/Concurrent/Sound/Advance.antt =====
-- The stages of a request from the rate limiters on
-- (antelope-firewall-lib/src/firewall_builder.rs), and any stage, keep what the stages say.
use antelope_firewall.Prelude.{
  ℕ, suc, ◌≡◌, sym, ap, ◌∙◌, subst, inl, inr, Option, none, some, List, ◌∷◌, arith, Text, codes,
  get_elem?, In, All, All-In, Bool-cases, Option-cases, List-cases, All-of-In,
}
use antelope_firewall.Node.{UrlApi, NodeEntry}
use antelope_firewall.Filter.{find_matching_urls}
use antelope_firewall.Health.{HealthChecker}
use antelope_firewall.Policy.{JsonApi, RequestInfo, health_rule}
use antelope_firewall.Policy.Laws.{matched, matched_iff}
use antelope_firewall.RateLimiter.{F32, should_request_pass}
use antelope_firewall.Routing.{Order, choose}
use antelope_firewall.Routing.Choice.{choose-In}
use antelope_firewall.Upstream.{HeaderApi, IpApi}
use antelope_firewall.Firewall.Route.{asked_node, limit_pin, asked_node-In, limit_pin-asked}
use antelope_firewall.Firewall.Replies.{
  Reply, forwarded, get_ratelimit_response, get_error_response,
}
use antelope_firewall.Firewall.Headers.{response_headers}
use antelope_firewall.Firewall.Handler.{
  AntelopeFirewall, Surroundings, target_url, host_headers, Answer, forward_error,
}
use antelope_firewall.Firewall.Concurrent.{
  Pending, Task, arrived, screening, limiting, matching, pinning, choosing, sending, counting,
  replied, panicked, limit_one, match_nodes, pin_one, choose_one, send_one, count_one, advance,
}
use antelope_firewall.Firewall.Concurrent.World.{rules_at}
use antelope_firewall.Firewall.Concurrent.Sound.{
  Admitted, Serves, Sound, same_task, Holds, receive-Sound, screen_one-Sound,
}

module _ (u : UrlApi) (h : HeaderApi) (i : IpApi) (j : JsonApi) (f : F32)
    (partial_cmp : f.Float → f.Float → Option Order) (hex_decode : Text → Option Text)
    (decode_trx : Text → Option j.Value) (gets pushes : List (NodeEntry u))
    (first : AntelopeFirewall u h i j f) where
  open j use {Value, null, parse_json}

  limit_one-Sound :
      (clock : ℕ → ℕ) (fw : AntelopeFirewall u h i j f) (p : Pending u h i j f) (k : ℕ)
      → Admitted u h i j f partial_cmp hex_decode decode_trx gets pushes first p
      → Sound u h i j f partial_cmp hex_decode decode_trx gets pushes first
          (limit_one u h i j f partial_cmp hex_decode decode_trx clock fw p k).1
  unfolding limit_one
  limit_one-Sound clock fw p k sound = elim (Option-cases (get_elem? fw.ratelimiters k)) [
    | inl e ↦
        same_task u h i j f partial_cmp hex_decode decode_trx gets pushes first _ (matching p)
          (ground (arith, e)) sound
    | inr (l, e) ↦ elim (Option-cases (should_request_pass f null l p.info p.json clock)) [
      | inl s ↦
          same_task u h i j f partial_cmp hex_decode decode_trx gets pushes first _ panicked
            (ground (arith, e, s)) tt
      | inr ((l', passed), s) ↦ elim (Bool-cases passed) [
        | inl b ↦
            same_task u h i j f partial_cmp hex_decode decode_trx gets pushes first _
              (limiting p (suc k)) (ground (arith, e, s, b)) sound
        | inr b ↦
            same_task u h i j f partial_cmp hex_decode decode_trx gets pushes first _
              (replied (get_ratelimit_response l.window_duration)) (ground (arith, e, s, b)) tt
      ]
    ]
  ]

  -- The rules with a health checker match what `matched` says of it.
  matching-rules :
      (fw : AntelopeFirewall u h i j f) (health : Option (HealthChecker u)) (p : Pending u h i j f)
      → fw.rules ≡ rules_at u h i j f gets pushes health
      → find_matching_urls null fw.rules p.info p.json
        ≡ matched j u gets pushes health p.info p.json
  unfolding find_matching_urls health_rule
  matching-rules fw none p e = ap (λ rules. find_matching_urls null rules p.info p.json) e
  matching-rules fw (some checker) p e = ap (λ rules. find_matching_urls null rules p.info p.json) e

  match_nodes-Sound :
      (health : Option (HealthChecker u)) (fw : AntelopeFirewall u h i j f) (p : Pending u h i j f)
      → Holds u h i j f partial_cmp hex_decode decode_trx gets pushes first health fw
      → Admitted u h i j f partial_cmp hex_decode decode_trx gets pushes first p
      → Sound u h i j f partial_cmp hex_decode decode_trx gets pushes first
          (match_nodes u h i j f partial_cmp hex_decode decode_trx fw p)
  unfolding match_nodes
  match_nodes-Sound health fw p kept sound =
      let found = find_matching_urls null fw.rules p.info p.json in
      let all : All (Serves u h i j f partial_cmp hex_decode decode_trx gets pushes first p) found =
        All-of-In (Serves u h i j f partial_cmp hex_decode decode_trx gets pushes first p) found
          (λ e m.
            ((matched_iff j u gets pushes health p.info p.json e).0
              (subst (In e) (matching-rules fw health p kept.rules) m)).0) in
      elim (List-cases found) [
        | inl m ↦
            same_task u h i j f partial_cmp hex_decode decode_trx gets pushes first _
              (replied (get_error_response (codes "Failed to find a route for your request.")))
              (ground (arith, m)) tt
        | inr (url, urls, m) ↦
            same_task u h i j f partial_cmp hex_decode decode_trx gets pushes first _
              (pinning p (url ∷ urls)) (ground (arith, m))
              (
                sound,
                subst (All (Serves u h i j f partial_cmp hex_decode decode_trx gets pushes first p))
                    m all,
              )
      ]

  -- The nodes that a request goes on with are those that matched.
  pub match_nodes-rules :
      (fw : AntelopeFirewall u h i j f) (health : Option (HealthChecker u)) (p : Pending u h i j f)
      (urls : List (NodeEntry u))
      → fw.rules ≡ rules_at u h i j f gets pushes health
      → match_nodes u h i j f partial_cmp hex_decode decode_trx fw p ≡ pinning p urls
      → matched j u gets pushes health p.info p.json ≡ urls
  unfolding match_nodes
  match_nodes-rules fw health p urls same e =
      elim (List-cases (find_matching_urls null fw.rules p.info p.json)) [
        | inl m ↦ ground (arith, m, e)
        | inr (url, rest, m) ↦ sym (matching-rules fw health p same) ∙ ground (arith, m, e)
      ]

  pin_one-Sound :
      (now : ℕ) (fw : AntelopeFirewall u h i j f) (p : Pending u h i j f)
      (urls : List (NodeEntry u))
      → Sound u h i j f partial_cmp hex_decode decode_trx gets pushes first (pinning p urls)
      → Sound u h i j f partial_cmp hex_decode decode_trx gets pushes first
          (pin_one u h i j f partial_cmp hex_decode decode_trx now fw p urls).1
  unfolding pin_one
  pin_one-Sound now fw p urls sound =
      let asked = asked_node u p.info urls in
      elim (Option-cases (limit_pin u p.info now fw.pin_limiter asked).0) [
        | inl e ↦
            same_task u h i j f partial_cmp hex_decode decode_trx gets pushes first _
              (choosing p urls) (ground (arith, e)) sound
        | inr (node, e) ↦
            let m =
              asked_node-In u p.info urls {e = node}
                (limit_pin-asked u p.info now fw.pin_limiter asked node e) in
            let serves =
              All-In (Serves u h i j f partial_cmp hex_decode decode_trx gets pushes first p) urls
                sound.1 m in
            same_task u h i j f partial_cmp hex_decode decode_trx gets pushes first _
              (sending p (some node)) (ground (arith, e))
              (
                sound.0,
                λ e' same.
                    subst (Serves u h i j f partial_cmp hex_decode decode_trx gets pushes first p)
                      (ground (arith, same)) serves,
              )
      ]

  choose_one-Sound :
      (sample : List ℕ → Option ℕ) (fw : AntelopeFirewall u h i j f) (p : Pending u h i j f)
      (urls : List (NodeEntry u))
      → Sound u h i j f partial_cmp hex_decode decode_trx gets pushes first (choosing p urls)
      → Sound u h i j f partial_cmp hex_decode decode_trx gets pushes first
          (choose_one u h i j f partial_cmp hex_decode decode_trx sample fw p urls).1
  unfolding choose_one
  choose_one-Sound sample fw p urls sound =
      elim (Option-cases (choose u f partial_cmp fw.routing_mode sample p.info.path urls)) [
        | inl e ↦
            same_task u h i j f partial_cmp hex_decode decode_trx gets pushes first _ panicked
              (ground (arith, e)) tt
        | inr ((chosen, mode), e) ↦
            same_task u h i j f partial_cmp hex_decode decode_trx gets pushes first _
              (sending p chosen) (ground (arith, e))
              (
                sound.0,
                λ node same.
                    All-In (Serves u h i j f partial_cmp hex_decode decode_trx gets pushes first p)
                      urls sound.1
                      (choose-In u f partial_cmp fw.routing_mode sample p.info.path urls node mode
                        (e ∙ ap (λ z. some (z, mode)) same)),
              )
      ]

  -- A task that is sent has no part in what is kept, nor has one that counts.
  send_one-Sound :
      (env : Surroundings u h i j f) (p : Pending u h i j f) (chosen : Option (NodeEntry u))
      → Sound u h i j f partial_cmp hex_decode decode_trx gets pushes first
          (send_one u h i j f partial_cmp hex_decode decode_trx env p chosen)
  unfolding send_one
  send_one-Sound env p chosen = elim (Option-cases (target_url u h i j f chosen p.info.path)) [
    | inl t ↦
        same_task u h i j f partial_cmp hex_decode decode_trx gets pushes first _ panicked
          (ground (arith, t)) tt
    | inr (url, t) ↦ elim (Option-cases (host_headers u h i j f url p.incoming.headers)) [
      | inl e ↦
          same_task u h i j f partial_cmp hex_decode decode_trx gets pushes first _ panicked
            (ground (arith, t, e)) tt
      | inr (headers, e) ↦ elim (Option-cases (env.send url headers p.bytes)) [
        | inl s ↦
            same_task u h i j f partial_cmp hex_decode decode_trx gets pushes first _
              (replied (forward_error u h i j f)) (ground (arith, t, e, s)) tt
        | inr (r, s) ↦ elim (Option-cases r.body) [
          | inl b ↦
              same_task u h i j f partial_cmp hex_decode decode_trx gets pushes first _ panicked
                (ground (arith, t, e, s, b)) tt
          | inr (bytes, b) ↦ elim (Option-cases (parse_json bytes)) [
            | inl v ↦
                same_task u h i j f partial_cmp hex_decode decode_trx gets pushes first _
                  (replied (forward_error u h i j f)) (ground (arith, t, e, s, b, v)) tt
            | inr (value, v) ↦
                let a : Answer u h i j f = (value, r.status) in
                let reply =
                  forwarded r.status
                    (response_headers u h p.info.path r.answered_by chosen r.headers) bytes in
                same_task u h i j f partial_cmp hex_decode decode_trx gets pushes first _
                  (counting p.info p.json a reply 0) (ground (arith, t, e, s, b, v)) tt
          ]
        ]
      ]
    ]
  ]

  count_one-Sound :
      (fw : AntelopeFirewall u h i j f) (req : RequestInfo) (json : Value) (a : Answer u h i j f)
      (reply : Reply h.Headers) (k : ℕ)
      → Sound u h i j f partial_cmp hex_decode decode_trx gets pushes first
          (count_one u h i j f partial_cmp hex_decode decode_trx fw req json a reply k).1
  unfolding count_one
  count_one-Sound fw req json a reply k = elim (Option-cases (get_elem? fw.ratelimiters k)) [
    | inl e ↦
        same_task u h i j f partial_cmp hex_decode decode_trx gets pushes first _ (replied reply)
          (ground (arith, e)) tt
    | inr (l, e) ↦
        same_task u h i j f partial_cmp hex_decode decode_trx gets pushes first _
          (counting req json a reply (suc k)) (ground (arith, e)) tt
  ]

  pub advance-Sound :
      (env : Surroundings u h i j f) (health : Option (HealthChecker u))
      (fw : AntelopeFirewall u h i j f) (t : Task u h i j f)
      → Holds u h i j f partial_cmp hex_decode decode_trx gets pushes first health fw
      → Sound u h i j f partial_cmp hex_decode decode_trx gets pushes first t
      → Sound u h i j f partial_cmp hex_decode decode_trx gets pushes first
          (advance u h i j f partial_cmp hex_decode decode_trx env fw t).1
  unfolding advance
  advance-Sound env health fw (arrived inc peer) kept sound =
      receive-Sound u h i j f partial_cmp hex_decode decode_trx gets pushes first health fw inc peer
        kept
  advance-Sound env health fw (screening p k) kept sound =
      screen_one-Sound u h i j f partial_cmp hex_decode decode_trx gets pushes first health fw p k
        kept sound
  advance-Sound env health fw (limiting p k) kept sound = limit_one-Sound (env.clock k) fw p k sound
  advance-Sound env health fw (matching p) kept sound = match_nodes-Sound health fw p kept sound
  advance-Sound env health fw (pinning p urls) kept sound =
      pin_one-Sound env.pin_now fw p urls sound
  advance-Sound env health fw (choosing p urls) kept sound =
      choose_one-Sound env.sample fw p urls sound
  advance-Sound env health fw (sending p chosen) kept sound = send_one-Sound env p chosen
  advance-Sound env health fw (counting req json a reply k) kept sound =
      count_one-Sound fw req json a reply k
  advance-Sound env health fw (replied reply) kept sound = tt
  advance-Sound env health fw panicked kept sound = tt
