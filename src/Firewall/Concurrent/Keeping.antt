-- ===== src/Firewall/Concurrent/Keeping.antt =====
-- What one stage of a request (antelope-firewall-lib/src/firewall_builder.rs) leaves of the
-- configuration of the shared firewall.
use antelope_firewall.Prelude.{
  ℕ, ◌≡◌, refl, sym, ◌∙◌, subst, inl, inr, Option, some, arith, Text, get_elem?, Bool-cases,
  Option-cases,
}
use antelope_firewall.Node.{UrlApi}
use antelope_firewall.Filter.{Filter}
use antelope_firewall.Filter
use antelope_firewall.Policy.{JsonApi, RequestInfo}
use antelope_firewall.RateLimiter.{
  F32, RateLimiter, should_request_pass, left_by_panic, post_increment, should_run_before_request,
}
use antelope_firewall.RateLimiter.Settings.{
  limiter_settings, post_increment-settings, should_request_pass-settings, left_by_panic-settings,
}
use antelope_firewall.Routing.{Order, choose}
use antelope_firewall.Upstream.{HeaderApi, IpApi}
use antelope_firewall.Firewall.Route.{asked_node}
use antelope_firewall.Firewall.Handler.{Answer, AntelopeFirewall, Surroundings}
use antelope_firewall.Firewall.Serving.Settings.{filter_settings, pass-filter_settings}
use antelope_firewall.Firewall.Serving.Invariants.{Kept, limit_pin-PinsKept}
use antelope_firewall.Firewall.Concurrent.{
  Task, arrived, screening, limiting, matching, pinning, choosing, sending, counting, replied,
  panicked, set, screen_one, limit_one, pin_one, choose_one, count_one, advance,
}
use antelope_firewall.Firewall.Concurrent.Places.{map-set}

module _ (u : UrlApi) (h : HeaderApi) (i : IpApi) (j : JsonApi) (f : F32)
    (partial_cmp : f.Float → f.Float → Option Order) (hex_decode : Text → Option Text)
    (decode_trx : Text → Option j.Value) (first : AntelopeFirewall u h i j f) where
  open j use {Value, null}

  abbrev Holds : AntelopeFirewall u h i j f → Type 0
  Holds = Kept u h i j f partial_cmp hex_decode decode_trx first

  set_filter-Kept :
      (fw : AntelopeFirewall u h i j f) (k : ℕ) (g g' : Filter RequestInfo Value)
      → get_elem? fw.filters k ≡ some g
      → filter_settings null g' ≡ filter_settings null g
      → Holds fw
      → Holds (record fw { filters = set fw.filters k g' })
  set_filter-Kept fw k g g' at_k same kept = record {
    filters = map-set (filter_settings null) fw.filters k g g' at_k same ∙ kept.filters;
    ratelimiters = kept.ratelimiters;
    rules = kept.rules;
    max_request_body_size = kept.max_request_body_size;
    client_ip_header = kept.client_ip_header;
    pins = kept.pins;
  }

  set_limiter-Kept :
      (fw : AntelopeFirewall u h i j f) (k : ℕ)
      (l l' : RateLimiter RequestInfo Value (Answer u h i j f))
      → get_elem? fw.ratelimiters k ≡ some l
      → limiter_settings null l' ≡ limiter_settings null l
      → Holds fw
      → Holds (record fw { ratelimiters = set fw.ratelimiters k l' })
  set_limiter-Kept fw k l l' at_k same kept = record {
    filters = kept.filters;
    ratelimiters =
        map-set (limiter_settings null) fw.ratelimiters k l l' at_k same ∙ kept.ratelimiters;
    rules = kept.rules;
    max_request_body_size = kept.max_request_body_size;
    client_ip_header = kept.client_ip_header;
    pins = kept.pins;
  }

  -- A state that is equal to one that keeps the configuration keeps it.
  moved : (fw fw' : AntelopeFirewall u h i j f) → fw ≡ fw' → Holds fw' → Holds fw
  moved fw fw' e kept = subst Holds (sym e) kept

  pub advance-Kept :
      (env : Surroundings u h i j f) (fw : AntelopeFirewall u h i j f) (t : Task u h i j f)
      → Holds fw
      → Holds (advance u h i j f partial_cmp hex_decode decode_trx env fw t).0
  unfolding advance screen_one limit_one pin_one choose_one count_one
  advance-Kept env fw (arrived inc peer) kept = kept
  advance-Kept env fw (screening p k) kept = elim (Option-cases (get_elem? fw.filters k)) [
    | inl e ↦ moved _ fw (ground (arith, e)) kept
    | inr (g, e) ↦
        let g' = (Filter.should_request_pass null g p.info p.json).0 in
        moved _ (record fw { filters = set fw.filters k g' }) (ground (arith, e))
          (set_filter-Kept fw k g g' e (pass-filter_settings null g p.info p.json) kept)
  ]
  advance-Kept env fw (limiting p k) kept = elim (Option-cases (get_elem? fw.ratelimiters k)) [
    | inl e ↦ moved _ fw (ground (arith, e)) kept
    | inr (l, e) ↦ elim (Option-cases (should_request_pass f null l p.info p.json (env.clock k))) [
      | inl s ↦
          let l' = left_by_panic f null l p.info p.json (env.clock k) in
          moved _ (record fw { ratelimiters = set fw.ratelimiters k l' }) (ground (arith, e, s))
            (set_limiter-Kept fw k l l' e
              (left_by_panic-settings null f l p.info p.json (env.clock k)) kept)
      | inr ((l', passed), s) ↦
          moved _ (record fw { ratelimiters = set fw.ratelimiters k l' }) (ground (arith, e, s))
            (set_limiter-Kept fw k l l' e
              (should_request_pass-settings null f l l' p.info p.json (env.clock k) passed s) kept)
    ]
  ]
  advance-Kept env fw (matching p) kept = kept
  advance-Kept env fw (pinning p urls) kept = record {
    filters = kept.filters;
    ratelimiters = kept.ratelimiters;
    rules = kept.rules;
    max_request_body_size = kept.max_request_body_size;
    client_ip_header = kept.client_ip_header;
    pins =
        limit_pin-PinsKept u first.pin_limiter fw.pin_limiter p.info env.pin_now
          (asked_node u p.info urls) kept.pins;
  }
  advance-Kept env fw (choosing p urls) kept =
      elim (Option-cases (choose u f partial_cmp fw.routing_mode env.sample p.info.path urls)) [
        | inl e ↦ moved _ fw (ground (arith, e)) kept
        | inr ((chosen, mode), e) ↦
            moved _ (record fw { routing_mode = mode }) (ground (arith, e))
              (record {
                filters = kept.filters;
                ratelimiters = kept.ratelimiters;
                rules = kept.rules;
                max_request_body_size = kept.max_request_body_size;
                client_ip_header = kept.client_ip_header;
                pins = kept.pins;
              })
      ]
  advance-Kept env fw (sending p chosen) kept = kept
  advance-Kept env fw (counting req json a reply k) kept =
      elim (Option-cases (get_elem? fw.ratelimiters k)) [
        | inl e ↦ moved _ fw (ground (arith, e)) kept
        | inr (l, e) ↦
            elim (Bool-cases
              (should_run_before_request RequestInfo Value (Answer u h i j f) l.increment_mode)) [
                | inl b ↦
                    moved _ (record fw { ratelimiters = set fw.ratelimiters k l })
                      (ground (arith, e, b)) (set_limiter-Kept fw k l l e refl kept)
                | inr b ↦
                    let l' = post_increment null l req json a in
                    moved _ (record fw { ratelimiters = set fw.ratelimiters k l' })
                      (ground (arith, e, b))
                      (set_limiter-Kept fw k l l' e (post_increment-settings null l req json a)
                        kept)
              ]
      ]
  advance-Kept env fw (replied reply) kept = kept
  advance-Kept env fw panicked kept = kept
