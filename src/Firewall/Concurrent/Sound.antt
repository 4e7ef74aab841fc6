-- ===== src/Firewall/Concurrent/Sound.antt =====
-- What the stage of a request (antelope-firewall-lib/src/firewall_builder.rs) says of what was
-- checked before it.
pub mod Advance
use antelope_firewall.Prelude.{
  ℕ, suc, ◌≡◌, sym, ap, ◌∙◌, subst, ◌⊎◌, inl, inr, true, false, Option, some, List, map, arith,
  Text, get_elem?, In, All, Bool-cases, Option-cases, ok, Result-cases,
}
use antelope_firewall.Cache.{handle_cache_option}
use antelope_firewall.Config.Endpoints.{is_get, is_push}
use antelope_firewall.Node.{UrlApi, NodeEntry}
use antelope_firewall.Filter.{Filter}
use antelope_firewall.Filter
use antelope_firewall.Health.{HealthChecker}
use antelope_firewall.Policy.{JsonApi, RequestInfo}
use antelope_firewall.RateLimiter.{F32, should_request_pass}
use antelope_firewall.Routing.{Order}
use antelope_firewall.Upstream.{HeaderApi, IpApi}
use antelope_firewall.Firewall.Body.{too_big, body_bytes, body_json}
use antelope_firewall.Firewall.Replies.{
  get_blocked_response, get_options_response, get_error_response, too_big_response, body_error_text,
}
use antelope_firewall.Firewall.Handler.{AntelopeFirewall, Incoming, is_options, request_info}
use antelope_firewall.Firewall.Serving.Settings.{filter_settings}
use antelope_firewall.Firewall.Serving.Invariants.{Kept}
use antelope_firewall.Firewall.Concurrent.{
  Pending, Task, arrived, screening, limiting, matching, pinning, choosing, sending, counting,
  replied, panicked, receive, screen_one,
}
use antelope_firewall.Firewall.Concurrent.Places.{
  get_elem?-map, get_elem?-map-none, Before, Before-zero, Before-suc, Before-All,
}
use antelope_firewall.Firewall.Concurrent.World.{rules_at}

module _ {Request Value : Type 0} (null : Value) where
  -- The counters of a filter have no part in what passes.
  filter_settings-pass :
      (g : Filter Request Value) (request : Request) (value : Value)
      → (Filter.should_request_pass null (filter_settings null g) request value).1
        ≡ (Filter.should_request_pass null g request value).1
  unfolding Filter.should_request_pass
  filter_settings-pass g request value = elim (Option-cases (handle_cache_option null g.cache)) [
    | inl e ↦ ground (arith, e)
    | inr (json, e) ↦ ground (arith, e)
  ]

module _ (u : UrlApi) (h : HeaderApi) (i : IpApi) (j : JsonApi) (f : F32)
    (partial_cmp : f.Float → f.Float → Option Order) (hex_decode : Text → Option Text)
    (decode_trx : Text → Option j.Value) (gets pushes : List (NodeEntry u))
    (first : AntelopeFirewall u h i j f) where
  open j use {Value, null, parse_json}

  -- The body is within the limit, was read and has a value, and the address is the client's.
  pub record Received (p : Pending u h i j f) : Type 0 where
    pub peer : i.Ip
    pub info : p.info ≡ request_info u h i j f first p.incoming peer
    pub size : too_big p.incoming.size_upper first.max_request_body_size ≡ false
    pub bytes : body_bytes p.incoming.method p.incoming.body ≡ ok p.bytes
    pub json : body_json j hex_decode decode_trx p.incoming.method p.bytes ≡ ok p.json

  abbrev pub Passes : Pending u h i j f → Filter RequestInfo Value → Type 0
  Passes p g = (Filter.should_request_pass null g p.info p.json).1 ≡ true

  -- Every filter passed the request, and it is no preflight.
  abbrev pub Admitted : Pending u h i j f → Type 0
  Admitted p =
      Received p
      × All (Passes p) (map (filter_settings null) first.filters)
      × (is_options p.incoming.method ≡ false)

  -- A node of the list for the path of the request.
  abbrev pub Serves : Pending u h i j f → NodeEntry u → Type 0
  Serves p e =
      ((is_get p.info.path ≡ true) × In e gets) ⊎ ((is_push p.info.path ≡ true) × In e pushes)

  abbrev pub Sound : Task u h i j f → Type 0
  Sound (arrived inc peer) = Unit
  Sound (screening p k) =
      Received p × Before (Passes p) (map (filter_settings null) first.filters) k
  Sound (limiting p k) = Admitted p
  Sound (matching p) = Admitted p
  Sound (pinning p urls) = Admitted p × All (Serves p) urls
  Sound (choosing p urls) = Admitted p × All (Serves p) urls
  Sound (sending p chosen) = Admitted p × ((e : NodeEntry u) → chosen ≡ some e → Serves p e)
  Sound (counting req json a reply k) = Unit
  Sound (replied reply) = Unit
  Sound panicked = Unit

  -- A stage that is equal to a sound one is sound.
  pub same_task : (t t' : Task u h i j f) → t ≡ t' → Sound t' → Sound t
  same_task t t' e sound = subst Sound (sym e) sound

  abbrev pub Holds : Option (HealthChecker u) → AntelopeFirewall u h i j f → Type 0
  Holds health fw =
      Kept u h i j f partial_cmp hex_decode decode_trx
        (record first { rules = rules_at u h i j f gets pushes health }) fw

  request_info-header :
      (fw fw' : AntelopeFirewall u h i j f) (inc : Incoming u h i j f) (peer : i.Ip)
      → fw.client_ip_header ≡ fw'.client_ip_header
      → request_info u h i j f fw inc peer ≡ request_info u h i j f fw' inc peer
  unfolding request_info
  request_info-header fw fw' inc peer e = ground (arith, e)

  pub receive-Sound :
      (health : Option (HealthChecker u)) (fw : AntelopeFirewall u h i j f)
      (inc : Incoming u h i j f) (peer : i.Ip)
      → Holds health fw
      → Sound (receive u h i j f partial_cmp hex_decode decode_trx fw inc peer)
  unfolding receive
  receive-Sound health fw inc peer kept =
      elim (Bool-cases (too_big inc.size_upper fw.max_request_body_size)) [
        | inl b ↦ same_task _ (replied too_big_response) (ground (arith, b)) tt
        | inr b ↦ elim (Result-cases (body_bytes inc.method inc.body)) [
          | inr (e, r) ↦
              same_task _ (replied (get_error_response (body_error_text e))) (ground (arith, b, r))
                tt
          | inl (bytes, r) ↦
              elim (Result-cases (body_json j hex_decode decode_trx inc.method bytes)) [
                | inr (e, v) ↦
                    same_task _ (replied (get_error_response (body_error_text e)))
                      (ground (arith, b, r, v)) tt
                | inl (json, v) ↦
                    let p : Pending u h i j f = record {
                      incoming = inc;
                      info = request_info u h i j f fw inc peer;
                      bytes = bytes;
                      json = json;
                    } in
                    same_task _ (screening p 0) (ground (arith, b, r, v)) (
                      record {
                        peer = peer;
                        info = request_info-header fw first inc peer kept.client_ip_header;
                        size =
                            subst (λ m. too_big inc.size_upper m ≡ false) kept.max_request_body_size
                              b;
                        bytes = r;
                        json = v;
                      },
                      Before-zero (Passes p) (map (filter_settings null) first.filters),
                    )
              ]
        ]
      ]

  pub screen_one-Sound :
      (health : Option (HealthChecker u)) (fw : AntelopeFirewall u h i j f) (p : Pending u h i j f)
      (k : ℕ)
      → Holds health fw
      → Sound (screening p k)
      → Sound (screen_one u h i j f partial_cmp hex_decode decode_trx fw p k).1
  unfolding screen_one
  screen_one-Sound health fw p k kept sound = elim (Option-cases (get_elem? fw.filters k)) [
    | inl e ↦
        let all =
          Before-All (Passes p) (map (filter_settings null) first.filters) k
            (ap (λ l. get_elem? l k) (sym kept.filters)
              ∙ get_elem?-map-none (filter_settings null) fw.filters k e)
            sound.1 in
        elim (Bool-cases (is_options p.incoming.method)) [
          | inl o ↦ same_task _ (replied get_options_response) (ground (arith, e, o)) tt
          | inr o ↦ same_task _ (limiting p 0) (ground (arith, e, o)) (sound.0, all, o)
        ]
    | inr (g, e) ↦ elim (Bool-cases (Filter.should_request_pass null g p.info p.json).1) [
      | inr no_pass ↦ same_task _ (replied get_blocked_response) (ground (arith, e, no_pass)) tt
      | inl pass ↦ same_task _ (screening p (suc k)) (ground (arith, e, pass)) (
        sound.0,
        Before-suc (Passes p) (map (filter_settings null) first.filters) k (filter_settings null g)
            (ap (λ l. get_elem? l k) (sym kept.filters)
              ∙ get_elem?-map (filter_settings null) fw.filters k g e)
            (filter_settings-pass null g p.info p.json ∙ pass) sound.1,
      )
    ]
  ]
