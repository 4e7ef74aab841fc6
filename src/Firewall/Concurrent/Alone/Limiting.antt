-- ===== src/Firewall/Concurrent/Alone/Limiting.antt =====
-- A request from the matching or from the loop over the rate limiters to its answer, stage by stage
-- (antelope-firewall-lib/src/firewall_builder.rs).
use antelope_firewall.Prelude.{
  ℕ, suc, ◌+◌, ◌≡◌, refl, sym, ap, ◌∙◌, subst, inl, inr, Option, none, some, List, [], ◌∷◌, ◌++◌,
  arith, Text, codes, length, Bool-cases, Option-cases, List-cases,
}
use antelope_firewall.Node.{UrlApi, NodeEntry}
use antelope_firewall.Filter.{find_matching_urls}
use antelope_firewall.Policy.{JsonApi, RequestInfo}
use antelope_firewall.RateLimiter.{F32, RateLimiter, should_request_pass, left_by_panic}
use antelope_firewall.PinLimiter.{PinLimiter}
use antelope_firewall.Routing.{RoutingModeState, Order, choose}
use antelope_firewall.Upstream.{HeaderApi, IpApi}
use antelope_firewall.Firewall.Route.{asked_node, limit_pin, choose_node}
use antelope_firewall.Firewall.Replies.{Reply, get_ratelimit_response, get_error_response}
use antelope_firewall.Firewall.Loops.{run_limiters}
use antelope_firewall.Firewall.Handler.{
  Answer, AntelopeFirewall, Surroundings, forward, route, limit,
}
use antelope_firewall.Firewall.Concurrent.{
  Pending, limiting, matching, pinning, choosing, sending, limit_one, match_nodes, pin_one,
  choose_one, advance,
}
use antelope_firewall.Firewall.Concurrent.Places.{
  get_elem?-append, get_elem?-end, set-append, snoc, length-snoc,
}
use antelope_firewall.Firewall.Concurrent.Alone.{Ends, Ends-step, Ends-panic, Ends-reply}
use antelope_firewall.Firewall.Concurrent.Alone.Sending.{forwarding-Ends}

module _ (u : UrlApi) (h : HeaderApi) (i : IpApi) (j : JsonApi) (f : F32)
    (partial_cmp : f.Float → f.Float → Option Order) (hex_decode : Text → Option Text)
    (decode_trx : Text → Option j.Value) (env : Surroundings u h i j f) where
  open h use {Headers}
  open j use {Value, null, parse_json}

  -- What `route` goes on with behind the choice.
  abbrev picked :
      AntelopeFirewall u h i j f
      → Pending u h i j f
      → Option (Option (NodeEntry u) × Option PinLimiter × RoutingModeState)
      → Option (AntelopeFirewall u h i j f × Reply Headers)
  picked fw p none = none
  picked fw p (some (chosen, limiter, mode)) =
      forward u h i j f (record fw { pin_limiter = limiter; routing_mode = mode }) p.incoming p.info
        p.bytes p.json chosen env

  choosing-Ends :
      (fw : AntelopeFirewall u h i j f) (p : Pending u h i j f) (urls : List (NodeEntry u))
      → Ends u h i j f partial_cmp hex_decode decode_trx env
          (picked fw p (
            choose_node u f partial_cmp p.info env.pin_now env.sample fw.pin_limiter fw.routing_mode
              urls))
          fw
          (pinning p urls)
  unfolding choose_node advance pin_one choose_one
  choosing-Ends fw p urls =
      let result = picked fw p (
        choose_node u f partial_cmp p.info env.pin_now env.sample fw.pin_limiter fw.routing_mode
          urls) in
      let limited = limit_pin u p.info env.pin_now fw.pin_limiter (asked_node u p.info urls) in
      let fw' = record fw { pin_limiter = limited.1 } in
      elim (Option-cases limited.0) [
        | inr (node, q) ↦
            let after = forward u h i j f fw' p.incoming p.info p.bytes p.json (some node) env in
            Ends-step u h i j f partial_cmp hex_decode decode_trx env result after fw
              (pinning p urls) (fw', sending p (some node)) (ground (arith, q)) (ground (arith, q))
              (forwarding-Ends u h i j f partial_cmp hex_decode decode_trx env fw' p (some node))
        | inl q ↦
            elim (Option-cases
              (choose u f partial_cmp fw.routing_mode env.sample p.info.path urls)) [
                | inl c ↦
                    Ends-step u h i j f partial_cmp hex_decode decode_trx env result none fw
                      (pinning p urls) (fw', choosing p urls) (ground (arith, q, c))
                      (ground (arith, q))
                      (Ends-panic u h i j f partial_cmp hex_decode decode_trx env none fw' fw'
                        (choosing p urls) refl (ground (arith, c)))
                | inr ((chosen, mode), c) ↦
                    let fw'' = record fw' { routing_mode = mode } in
                    let after =
                      forward u h i j f fw'' p.incoming p.info p.bytes p.json chosen env in
                    Ends-step u h i j f partial_cmp hex_decode decode_trx env result after fw
                      (pinning p urls) (fw', choosing p urls) (ground (arith, q, c))
                      (ground (arith, q))
                      (Ends-step u h i j f partial_cmp hex_decode decode_trx env after after fw'
                        (choosing p urls) (fw'', sending p chosen) refl (ground (arith, c))
                        (forwarding-Ends u h i j f partial_cmp hex_decode decode_trx env fw'' p
                          chosen))
              ]
      ]

  routing-Ends :
      (fw : AntelopeFirewall u h i j f) (p : Pending u h i j f)
      → Ends u h i j f partial_cmp hex_decode decode_trx env
          (route u h i j f partial_cmp fw p.incoming p.info p.bytes p.json env)
          fw
          (matching p)
  unfolding route advance match_nodes
  routing-Ends fw p =
      let result = route u h i j f partial_cmp fw p.incoming p.info p.bytes p.json env in
      elim (List-cases (find_matching_urls null fw.rules p.info p.json)) [
        | inl m ↦
            Ends-reply u h i j f partial_cmp hex_decode decode_trx env result fw fw (matching p)
              (get_error_response (codes "Failed to find a route for your request."))
              (ground (arith, m)) (ground (arith, m))
        | inr (url, urls, m) ↦
            let after = picked fw p (
              choose_node u f partial_cmp p.info env.pin_now env.sample fw.pin_limiter
                fw.routing_mode (url ∷ urls)) in
            Ends-step u h i j f partial_cmp hex_decode decode_trx env result after fw (matching p)
              (fw, pinning p (url ∷ urls)) (ground (arith, m)) (ground (arith, m))
              (choosing-Ends fw p (url ∷ urls))
      ]

  -- What `limit` goes on with behind the limiters.
  abbrev limited :
      AntelopeFirewall u h i j f
      → Pending u h i j f
      → List (RateLimiter RequestInfo Value (Answer u h i j f))
      → Option (List (RateLimiter RequestInfo Value (Answer u h i j f)) × Option ℕ)
      → Option (AntelopeFirewall u h i j f × Reply Headers)
  limited fw p pre none = none
  limited fw p pre (some (ls, some window)) =
      some (record fw { ratelimiters = pre ++ ls }, get_ratelimit_response window)
  limited fw p pre (some (ls, none)) =
      route u h i j f partial_cmp (record fw { ratelimiters = pre ++ ls }) p.incoming p.info p.bytes
        p.json env

  abbrev behind :
      RateLimiter RequestInfo Value (Answer u h i j f)
      → Option (List (RateLimiter RequestInfo Value (Answer u h i j f)) × Option ℕ)
      → Option (List (RateLimiter RequestInfo Value (Answer u h i j f)) × Option ℕ)
  behind l none = none
  behind l (some (ls, refused)) = some (l ∷ ls, refused)

  limited-snoc :
      (fw : AntelopeFirewall u h i j f) (p : Pending u h i j f)
      (pre : List (RateLimiter RequestInfo Value (Answer u h i j f)))
      (l : RateLimiter RequestInfo Value (Answer u h i j f))
      (rest : Option (List (RateLimiter RequestInfo Value (Answer u h i j f)) × Option ℕ))
      → limited fw p pre (behind l rest) ≡ limited fw p (pre ++ l ∷ []) rest
  limited-snoc fw p pre l none = refl
  limited-snoc fw p pre l (some (ls, some window)) = rw (snoc pre ls l) refl
  limited-snoc fw p pre l (some (ls, none)) = rw (snoc pre ls l) refl

  limiting-Ends :
      (fw : AntelopeFirewall u h i j f) (p : Pending u h i j f)
      (pre ls : List (RateLimiter RequestInfo Value (Answer u h i j f))) (clock : ℕ → ℕ → ℕ)
      → ((k : ℕ) → clock k ≡ env.clock (length pre + k))
      → Ends u h i j f partial_cmp hex_decode decode_trx env
          (limited fw p pre (run_limiters null f ls p.info p.json clock))
          (record fw { ratelimiters = pre ++ ls })
          (limiting p (length pre))
  unfolding run_limiters advance limit_one
  limiting-Ends fw p pre [] clock same =
      let fw0 = record fw { ratelimiters = pre ++ [] } in
      let result = route u h i j f partial_cmp fw0 p.incoming p.info p.bytes p.json env in
      Ends-step u h i j f partial_cmp hex_decode decode_trx env result result fw0
        (limiting p (length pre)) (fw0, matching p) refl (ground (arith, get_elem?-end pre))
        (routing-Ends fw0 p)
  limiting-Ends fw p pre (l ∷ ls) clock same =
      let fw0 = record fw { ratelimiters = pre ++ l ∷ ls } in
      let rest = run_limiters null f ls p.info p.json (λ k. clock (suc k)) in
      let result = limited fw p pre (run_limiters null f (l ∷ ls) p.info p.json clock) in
      let now : clock 0 ≡ env.clock (length pre) = same 0 ∙ ap env.clock (omega arith) in
      let at_l = get_elem?-append pre ls l in
      elim (Option-cases (should_request_pass f null l p.info p.json (clock 0))) [
        | inl e ↦
            let l' = left_by_panic f null l p.info p.json (env.clock (length pre)) in
            let fw' = record fw { ratelimiters = pre ++ l' ∷ ls } in
            Ends-panic u h i j f partial_cmp hex_decode decode_trx env result fw0 fw'
              (limiting p (length pre)) (ground (arith, e))
              (ground (arith, e, now, at_l, set-append pre ls l l'))
        | inr ((l', passed), e) ↦
            let written = set-append pre ls l l' in
            elim (Bool-cases passed) [
              | inr no_pass ↦
                  let fw' = record fw { ratelimiters = pre ++ l' ∷ ls } in
                  Ends-reply u h i j f partial_cmp hex_decode decode_trx env result fw0 fw'
                    (limiting p (length pre)) (get_ratelimit_response l.window_duration)
                    (ground (arith, e, no_pass)) (ground (arith, e, now, at_l, written, no_pass))
              | inl pass ↦
                  let fw' = record fw { ratelimiters = pre ++ l' ∷ ls } in
                  let after = limited fw p (pre ++ l' ∷ []) rest in
                  let through : run_limiters null f (l ∷ ls) p.info p.json clock ≡ behind l' rest =
                    ground (arith, e, pass) in
                  Ends-step u h i j f partial_cmp hex_decode decode_trx env result after fw0
                    (limiting p (length pre)) (fw', limiting p (suc (length pre)))
                    (ap (limited fw p pre) through ∙ limited-snoc fw p pre l' rest)
                    (ground (arith, e, now, at_l, written, pass))
                    (rw (snoc pre ls l', length-snoc pre l') at
                      (limiting-Ends fw p (pre ++ l' ∷ []) ls (λ k. clock (suc k))
                        (λ k. same (suc k) ∙ ap env.clock (omega (arith, length-snoc pre l')))))
            ]
      ]

  limit-limited :
      (fw : AntelopeFirewall u h i j f) (p : Pending u h i j f)
      → limit u h i j f partial_cmp fw p.incoming p.info p.bytes p.json env
        ≡ limited fw p [] (run_limiters null f fw.ratelimiters p.info p.json env.clock)
  unfolding limit
  limit-limited fw p =
      elim (Option-cases (run_limiters null f fw.ratelimiters p.info p.json env.clock)) [
        | inl e ↦ ground (arith, e)
        | inr ((ls, none), e) ↦ ground (arith, e)
        | inr ((ls, some window), e) ↦ ground (arith, e)
      ]

  pub limit-Ends :
      (fw : AntelopeFirewall u h i j f) (p : Pending u h i j f)
      → Ends u h i j f partial_cmp hex_decode decode_trx env
          (limit u h i j f partial_cmp fw p.incoming p.info p.bytes p.json env)
          fw
          (limiting p 0)
  unfolding limit
  limit-Ends fw p =
      let result = limit u h i j f partial_cmp fw p.incoming p.info p.bytes p.json env in
      let ran = run_limiters null f fw.ratelimiters p.info p.json env.clock in
      let same : result ≡ limited fw p [] ran = limit-limited fw p in
      subst (λ a. Ends u h i j f partial_cmp hex_decode decode_trx env a fw (limiting p 0))
        (sym same)
        (limiting-Ends fw p [] fw.ratelimiters env.clock (λ k. ap env.clock (omega arith)))
