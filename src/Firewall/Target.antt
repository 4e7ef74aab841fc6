-- ===== src/Firewall/Target.antt =====
-- Where `handle_request` (antelope-firewall-lib/src/firewall_builder.rs) sends a request, and what it
-- makes of what comes back.
use antelope_firewall.Prelude.{
  ℕ, ◌≡◌, sym, ap, ◌∙◌, ◌⊎◌, codes, inl, inr, Option, none, some, arith, Text, Option-cases,
}
use antelope_firewall.Node.{UrlApi, NodeEntry}
use antelope_firewall.Policy.{JsonApi, RequestInfo}
use antelope_firewall.RateLimiter.{F32}
use antelope_firewall.Upstream.{HeaderApi, IpApi}
use antelope_firewall.Firewall.Headers.{response_headers}
use antelope_firewall.Firewall.Replies.{forwarded, get_error_response}
use antelope_firewall.Firewall.Handler.{
  AntelopeFirewall, Incoming, NodeResponse, Surroundings, target_url, host_headers, answer, forward,
}

module _ (u : UrlApi) (h : HeaderApi) (i : IpApi) (j : JsonApi) (f : F32) where
  open h use {Headers}
  open j use {Value, null}

  -- A url without a query, at the scheme, the host and the port of the chosen node, if one was
  -- chosen, and there, if the node has a host, at this path.
  abbrev pub Targets : Option (NodeEntry u) → Text → u.Url → Type 0
  Targets none path url = u.query url ≡ none
  Targets (some node) path url =
      (u.query url ≡ none)
      × (u.scheme url ≡ u.scheme node.url)
      × (u.host_str url ≡ u.host_str node.url)
      × (u.port_or_known_default url ≡ u.port_or_known_default node.url)
      × ((u.host_str node.url ≡ none) ⊎ (u.path url ≡ u.path (u.set_path node.url path)))

  target_url-Targets :
      (chosen : Option (NodeEntry u)) (path : Text) (url : u.Url)
      → target_url u h i j f chosen path ≡ some url
      → Targets chosen path url
  unfolding target_url
  target_url-Targets none path url e = elim (Option-cases (u.parse (codes "https://127.0.0.1/"))) [
    | inl q ↦ ground (arith, e, q)
    | inr (base, q) ↦
        let same : u.set_query (u.set_path base path) none ≡ url = ground (arith, e, q) in
        ap u.query (sym same) ∙ u.query-set_query (u.set_path base path)
  ]
  target_url-Targets (some node) path url e =
      let moved = u.set_path node.url path in
      let same : url ≡ u.set_query moved none = ground (arith, e) in
      (
        ap u.query same ∙ u.query-set_query moved,
        ap u.scheme same ∙ u.scheme-set_query moved none ∙ u.scheme-set_path node.url path,
        ap u.host_str same ∙ u.host_str-set_query moved none ∙ u.host_str-set_path node.url path,
        ap u.port_or_known_default same
            ∙ u.port-set_query moved none
            ∙ u.port-set_path node.url path,
        elim (Option-cases (u.host_str node.url)) [
          | inl e' ↦ inl e'
          | inr (host, e') ↦ inr (
              ap u.path same
              ∙ u.path-set_query moved host none (u.host_str-set_path node.url path ∙ e'))
        ],
      )

  -- The exchange behind a forwarded answer: a url of the chosen node with the path of the request
  -- and no query, the node's status and body as they came, and the headers of `response_headers`.
  pub record Exchange (req : RequestInfo) (bytes : Text) (env : Surroundings u h i j f)
      (chosen : Option (NodeEntry u)) (status : ℕ) (hs : Headers) (b : Text) : Type 0 where
    pub url : u.Url
    pub sent : Headers
    pub response : NodeResponse u h i j f
    pub target : Targets chosen req.path url
    pub sends : env.send url sent bytes ≡ some response
    pub same_status : status ≡ response.status
    pub named : hs ≡ response_headers u h req.path response.answered_by chosen response.headers
    pub same_body : response.body ≡ some b

  answer-forwarded :
      (fw fw' : AntelopeFirewall u h i j f) (req : RequestInfo) (json : Value)
      (chosen : Option (NodeEntry u)) (r : NodeResponse u h i j f) (status : ℕ) (hs : Headers)
      (b : Text)
      → answer u h i j f fw req json chosen r ≡ some (fw', forwarded status hs b)
      → (status ≡ r.status)
        × (hs ≡ response_headers u h req.path r.answered_by chosen r.headers)
        × (r.body ≡ some b)
  unfolding answer get_error_response
  answer-forwarded fw fw' req json chosen r status hs b e = elim (Option-cases r.body) [
    | inl q ↦ ground (arith, e, q)
    | inr (body, q) ↦ elim (Option-cases (j.parse_json body)) [
      | inl p ↦ ground (arith, e, q, p)
      | inr (v, p) ↦ ground (arith, e, q, p)
    ]
  ]

  pub forward-Exchange :
      (fw fw' : AntelopeFirewall u h i j f) (inc : Incoming u h i j f) (req : RequestInfo)
      (bytes : Text) (json : Value) (chosen : Option (NodeEntry u)) (env : Surroundings u h i j f)
      (status : ℕ) (hs : Headers) (b : Text)
      → forward u h i j f fw inc req bytes json chosen env ≡ some (fw', forwarded status hs b)
      → Exchange req bytes env chosen status hs b
  unfolding forward get_error_response
  forward-Exchange fw fw' inc req bytes json chosen env status hs b e =
      elim (Option-cases (target_url u h i j f chosen req.path)) [
        | inl q ↦ ground (arith, e, q)
        | inr (url, q) ↦ elim (Option-cases (host_headers u h i j f url inc.headers)) [
          | inl p ↦ ground (arith, e, q, p)
          | inr (sent, p) ↦ elim (Option-cases (env.send url sent bytes)) [
            | inl s ↦ ground (arith, e, q, p, s)
            | inr (r, s) ↦
                let a =
                  answer-forwarded fw fw' req json chosen r status hs b
                    (ground (arith, e, q, p, s)) in
                record {
                  url = url;
                  sent = sent;
                  response = r;
                  target = target_url-Targets chosen req.path url q;
                  sends = s;
                  same_status = a.0;
                  named = a.1;
                  same_body = a.2;
                }
          ]
        ]
      ]
