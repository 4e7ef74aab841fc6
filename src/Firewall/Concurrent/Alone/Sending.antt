-- ===== src/Firewall/Concurrent/Alone/Sending.antt =====
-- The exchange with a node and the limiters after it, stage by stage
-- (antelope-firewall-lib/src/firewall_builder.rs).
use antelope_firewall.Prelude.{
  suc, ◌≡◌, refl, sym, subst, inl, inr, Option, some, List, [], ◌∷◌, ◌++◌, arith, Text,
  if◌then◌else◌, length, Option-cases,
}
use antelope_firewall.Node.{UrlApi, NodeEntry}
use antelope_firewall.Policy.{JsonApi, RequestInfo}
use antelope_firewall.RateLimiter.{F32, RateLimiter, post_increment, should_run_before_request}
use antelope_firewall.Routing.{Order}
use antelope_firewall.Upstream.{HeaderApi, IpApi}
use antelope_firewall.Firewall.Replies.{Reply, forwarded}
use antelope_firewall.Firewall.Headers.{response_headers}
use antelope_firewall.Firewall.Loops.{post_increments}
use antelope_firewall.Firewall.Handler.{
  Answer, AntelopeFirewall, Surroundings, NodeResponse, forward_error, target_url, host_headers,
  answer, forward,
}
use antelope_firewall.Firewall.Concurrent.{Pending, sending, counting, send_one, count_one, advance}
use antelope_firewall.Firewall.Concurrent.Places.{
  get_elem?-append, get_elem?-end, set-append, snoc, length-snoc,
}
use antelope_firewall.Firewall.Concurrent.Alone.{Ends, Ends-step, Ends-panic, Ends-reply}

module _ (u : UrlApi) (h : HeaderApi) (i : IpApi) (j : JsonApi) (f : F32)
    (partial_cmp : f.Float → f.Float → Option Order) (hex_decode : Text → Option Text)
    (decode_trx : Text → Option j.Value) (env : Surroundings u h i j f) where
  open h use {Headers}
  open j use {Value, null, parse_json}

  abbrev counted :
      RequestInfo
      → Value
      → Answer u h i j f
      → RateLimiter RequestInfo Value (Answer u h i j f)
      → RateLimiter RequestInfo Value (Answer u h i j f)
  counted req json a l =
      if should_run_before_request RequestInfo Value (Answer u h i j f) l.increment_mode
      then l
      else post_increment null l req json a

  counting-Ends :
      (fw : AntelopeFirewall u h i j f) (req : RequestInfo) (json : Value) (a : Answer u h i j f)
      (reply : Reply Headers) (pre ls : List (RateLimiter RequestInfo Value (Answer u h i j f)))
      → Ends u h i j f partial_cmp hex_decode decode_trx env
          (some (record fw { ratelimiters = pre ++ post_increments null ls req json a }, reply))
          (record fw { ratelimiters = pre ++ ls })
          (counting req json a reply (length pre))
  unfolding advance count_one post_increments
  counting-Ends fw req json a reply pre [] =
      let same = record fw { ratelimiters = pre ++ [] } in
      Ends-reply u h i j f partial_cmp hex_decode decode_trx env (some (same, reply)) same same
        (counting req json a reply (length pre)) reply refl (ground (arith, get_elem?-end pre))
  counting-Ends fw req json a reply pre (l ∷ ls) =
      let l' = counted req json a l in
      let rest = post_increments null ls req json a in
      let result : Option (AntelopeFirewall u h i j f × Reply Headers) =
        some (record fw { ratelimiters = pre ++ l' ∷ rest }, reply) in
      Ends-step u h i j f partial_cmp hex_decode decode_trx env result result
        (record fw { ratelimiters = pre ++ l ∷ ls }) (counting req json a reply (length pre))
        (record fw { ratelimiters = pre ++ l' ∷ ls }, counting req json a reply (suc (length pre)))
        refl (ground (arith, get_elem?-append pre ls l, set-append pre ls l l'))
        (rw (snoc pre rest l', snoc pre ls l', length-snoc pre l') at
          (counting-Ends fw req json a reply (pre ++ l' ∷ []) ls))

  answering-Ends :
      (fw : AntelopeFirewall u h i j f) (p : Pending u h i j f) (chosen : Option (NodeEntry u))
      (r : NodeResponse u h i j f) (url : u.Url) (headers : Headers)
      → target_url u h i j f chosen p.info.path ≡ some url
      → host_headers u h i j f url p.incoming.headers ≡ some headers
      → env.send url headers p.bytes ≡ some r
      → Ends u h i j f partial_cmp hex_decode decode_trx env
          (answer u h i j f fw p.info p.json chosen r)
          fw
          (sending p chosen)
  unfolding answer advance send_one
  answering-Ends fw p chosen r url headers t e s =
      let result = answer u h i j f fw p.info p.json chosen r in
      elim (Option-cases r.body) [
        | inl b ↦
            Ends-panic u h i j f partial_cmp hex_decode decode_trx env result fw fw
              (sending p chosen) (ground (arith, b)) (ground (arith, t, e, s, b))
        | inr (bytes, b) ↦ elim (Option-cases (parse_json bytes)) [
          | inl v ↦
              Ends-reply u h i j f partial_cmp hex_decode decode_trx env result fw fw
                (sending p chosen) (forward_error u h i j f) (ground (arith, b, v))
                (ground (arith, t, e, s, b, v))
          | inr (value, v) ↦
              let a : Answer u h i j f = (value, r.status) in
              let reply =
                forwarded r.status (response_headers u h p.info.path r.answered_by chosen r.headers)
                  bytes in
              Ends-step u h i j f partial_cmp hex_decode decode_trx env result
                (some (
                  record fw { ratelimiters = post_increments null fw.ratelimiters p.info p.json a },
                  reply,
                ))
                fw (sending p chosen) (fw, counting p.info p.json a reply 0) (ground (arith, b, v))
                (ground (arith, t, e, s, b, v))
                (counting-Ends fw p.info p.json a reply [] fw.ratelimiters)
        ]
      ]

  pub forwarding-Ends :
      (fw : AntelopeFirewall u h i j f) (p : Pending u h i j f) (chosen : Option (NodeEntry u))
      → Ends u h i j f partial_cmp hex_decode decode_trx env
          (forward u h i j f fw p.incoming p.info p.bytes p.json chosen env)
          fw
          (sending p chosen)
  unfolding forward advance send_one
  forwarding-Ends fw p chosen =
      let result = forward u h i j f fw p.incoming p.info p.bytes p.json chosen env in
      elim (Option-cases (target_url u h i j f chosen p.info.path)) [
        | inl t ↦
            Ends-panic u h i j f partial_cmp hex_decode decode_trx env result fw fw
              (sending p chosen) (ground (arith, t)) (ground (arith, t))
        | inr (url, t) ↦ elim (Option-cases (host_headers u h i j f url p.incoming.headers)) [
          | inl e ↦
              Ends-panic u h i j f partial_cmp hex_decode decode_trx env result fw fw
                (sending p chosen) (ground (arith, t, e)) (ground (arith, t, e))
          | inr (headers, e) ↦ elim (Option-cases (env.send url headers p.bytes)) [
            | inl s ↦
                Ends-reply u h i j f partial_cmp hex_decode decode_trx env result fw fw
                  (sending p chosen) (forward_error u h i j f) (ground (arith, t, e, s))
                  (ground (arith, t, e, s))
            | inr (r, s) ↦
                let same : result ≡ answer u h i j f fw p.info p.json chosen r =
                  ground (arith, t, e, s) in
                subst
                  (λ a.
                    Ends u h i j f partial_cmp hex_decode decode_trx env a fw (sending p chosen))
                  (sym same) (answering-Ends fw p chosen r url headers t e s)
          ]
        ]
      ]
