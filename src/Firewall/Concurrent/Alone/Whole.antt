-- ===== src/Firewall/Concurrent/Alone/Whole.antt =====
-- A request from its arrival to its answer, stage by stage, against `handle_request`
-- (antelope-firewall-lib/src/firewall_builder.rs).
use antelope_firewall.Prelude.{
  suc, inl, inr, Bool, not, Option, some, List, [], ◌∷◌, ◌++◌, arith, Text, if◌then◌else◌, length,
  Bool-cases, Result-cases,
}
use antelope_firewall.Node.{UrlApi}
use antelope_firewall.Filter.{Filter, find_matching_urls}
use antelope_firewall.Filter
use antelope_firewall.Policy.{JsonApi, RequestInfo}
use antelope_firewall.RateLimiter.{F32}
use antelope_firewall.Routing.{Order}
use antelope_firewall.Upstream.{HeaderApi, IpApi}
use antelope_firewall.Firewall.Body.{too_big, body_bytes, body_json}
use antelope_firewall.Firewall.Replies.{
  Reply, get_error_response, get_blocked_response, get_options_response, too_big_response,
  body_error_text,
}
use antelope_firewall.Firewall.Loops.{run_filters}
use antelope_firewall.Firewall.Handler.{
  is_options, AntelopeFirewall, Incoming, Surroundings, request_info, limit, screen, handle_request,
}
use antelope_firewall.Firewall.Concurrent.{
  Pending, arrived, screening, limiting, receive, screen_one, advance,
}
use antelope_firewall.Firewall.Concurrent.Places.{
  get_elem?-append, get_elem?-end, set-append, snoc, length-snoc,
}
use antelope_firewall.Firewall.Concurrent.Alone.{Ends, Ends-step, Ends-reply}
use antelope_firewall.Firewall.Concurrent.Alone.Limiting.{limit-Ends}

module _ (u : UrlApi) (h : HeaderApi) (i : IpApi) (j : JsonApi) (f : F32)
    (partial_cmp : f.Float → f.Float → Option Order) (hex_decode : Text → Option Text)
    (decode_trx : Text → Option j.Value) (env : Surroundings u h i j f) where
  open h use {Headers}
  open j use {Value, null, parse_json}

  -- What `screen` goes on with behind the filters.
  abbrev screened :
      AntelopeFirewall u h i j f
      → Pending u h i j f
      → List (Filter RequestInfo Value)
      → List (Filter RequestInfo Value) × Bool
      → Option (AntelopeFirewall u h i j f × Reply Headers)
  screened fw p pre (gs, passed) =
      let fw' = record fw { filters = pre ++ gs } in
      if not passed
      then some (fw', get_blocked_response)
      else if is_options p.incoming.method
      then some (fw', get_options_response)
      else limit u h i j f partial_cmp fw' p.incoming p.info p.bytes p.json env

  screening-Ends :
      (fw : AntelopeFirewall u h i j f) (p : Pending u h i j f)
      (pre gs : List (Filter RequestInfo Value))
      → Ends u h i j f partial_cmp hex_decode decode_trx env
          (screened fw p pre (run_filters null gs p.info p.json))
          (record fw { filters = pre ++ gs })
          (screening p (length pre))
  unfolding run_filters advance screen_one
  screening-Ends fw p pre [] =
      let fw0 = record fw { filters = pre ++ [] } in
      let result = screened fw p pre (run_filters null [] p.info p.json) in
      let end = get_elem?-end pre in
      elim (Bool-cases (is_options p.incoming.method)) [
        | inl o ↦
            Ends-reply u h i j f partial_cmp hex_decode decode_trx env result fw0 fw0
              (screening p (length pre)) get_options_response (ground (arith, o))
              (ground (arith, o, end))
        | inr o ↦
            let after = limit u h i j f partial_cmp fw0 p.incoming p.info p.bytes p.json env in
            Ends-step u h i j f partial_cmp hex_decode decode_trx env result after fw0
              (screening p (length pre)) (fw0, limiting p 0) (ground (arith, o))
              (ground (arith, o, end))
              (limit-Ends u h i j f partial_cmp hex_decode decode_trx env fw0 p)
      ]
  screening-Ends fw p pre (g ∷ gs) =
      let fw0 = record fw { filters = pre ++ g ∷ gs } in
      let result = screened fw p pre (run_filters null (g ∷ gs) p.info p.json) in
      let g' = (Filter.should_request_pass null g p.info p.json).0 in
      let fw' = record fw { filters = pre ++ g' ∷ gs } in
      let at_g = get_elem?-append pre gs g in
      let written = set-append pre gs g g' in
      elim (Bool-cases (Filter.should_request_pass null g p.info p.json).1) [
        | inr no_pass ↦
            Ends-reply u h i j f partial_cmp hex_decode decode_trx env result fw0 fw'
              (screening p (length pre)) get_blocked_response (ground (arith, no_pass))
              (ground (arith, no_pass, at_g, written))
        | inl pass ↦
            let after = screened fw p (pre ++ g' ∷ []) (run_filters null gs p.info p.json) in
            Ends-step u h i j f partial_cmp hex_decode decode_trx env result after fw0
              (screening p (length pre)) (fw', screening p (suc (length pre)))
              (ground (arith, pass, snoc pre (run_filters null gs p.info p.json).0 g'))
              (ground (arith, pass, at_g, written))
              (rw (snoc pre gs g', length-snoc pre g') at (screening-Ends fw p (pre ++ g' ∷ []) gs))
      ]

  -- The stages of a request with no other between them end as `handle_request` does, from any
  -- firewall and for any request and surroundings: in its firewall with its reply, and in a panic
  -- where it panics.
  pub handle_request-Ends :
      (fw : AntelopeFirewall u h i j f) (inc : Incoming u h i j f) (peer : i.Ip)
      → Ends u h i j f partial_cmp hex_decode decode_trx env
          (handle_request u h i j f partial_cmp hex_decode decode_trx fw inc peer env)
          fw
          (arrived inc peer)
  unfolding handle_request screen advance receive
  handle_request-Ends fw inc peer =
      let result = handle_request u h i j f partial_cmp hex_decode decode_trx fw inc peer env in
      elim (Bool-cases (too_big inc.size_upper fw.max_request_body_size)) [
        | inl b ↦
            Ends-reply u h i j f partial_cmp hex_decode decode_trx env result fw fw
              (arrived inc peer) too_big_response (ground (arith, b)) (ground (arith, b))
        | inr b ↦ elim (Result-cases (body_bytes inc.method inc.body)) [
          | inr (e, r) ↦
              Ends-reply u h i j f partial_cmp hex_decode decode_trx env result fw fw
                (arrived inc peer) (get_error_response (body_error_text e)) (ground (arith, b, r))
                (ground (arith, b, r))
          | inl (bytes, r) ↦
              elim (Result-cases (body_json j hex_decode decode_trx inc.method bytes)) [
                | inr (e, v) ↦
                    Ends-reply u h i j f partial_cmp hex_decode decode_trx env result fw fw
                      (arrived inc peer) (get_error_response (body_error_text e))
                      (ground (arith, b, r, v)) (ground (arith, b, r, v))
                | inl (json, v) ↦
                    let info = request_info u h i j f fw inc peer in
                    let p : Pending u h i j f = record {
                      incoming = inc;
                      info = info;
                      bytes = bytes;
                      json = json;
                    } in
                    let after = screened fw p [] (run_filters null fw.filters info json) in
                    Ends-step u h i j f partial_cmp hex_decode decode_trx env result after fw
                      (arrived inc peer) (fw, screening p 0) (ground (arith, b, r, v))
                      (ground (arith, b, r, v)) (screening-Ends fw p [] fw.filters)
              ]
        ]
      ]
