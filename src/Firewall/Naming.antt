-- ===== src/Firewall/Naming.antt =====
-- What a client can read of the upstream in the headers of an answer
-- (antelope-firewall-lib/src/firewall_builder.rs).
use antelope_firewall.Prelude.{
  ◌≡◌, refl, sym, ap, ◌∙◌, ◌⊎◌, Bool-cases, contains, inl, inr, true, false, Option, none, some,
  List, [], ◌∷◌, ◌++◌, arith, Text, ◌==◌, eqb, if◌then◌else◌, length, Option-cases,
}
use antelope_firewall.Prelude.Strings.{eq_ignore_ascii_case}
use antelope_firewall.Node.{UrlApi, NodeEntry, Origin, origin, same_origin_iff}
use antelope_firewall.Config.Endpoints.{is_get, get_endpoints}
use antelope_firewall.Upstream.{HeaderApi, upstream_header, expose_headers, expose_header_value}
use antelope_firewall.Firewall.Headers.{
  collect_all, or_empty, expose_name, may_name, name_node, response_headers,
}

upstream_self : eq_ignore_ascii_case upstream_header upstream_header ≡ true
unfolding eq_ignore_ascii_case ◌==◌
upstream_self = refl

expose_self : eq_ignore_ascii_case expose_headers expose_headers ≡ true
unfolding eq_ignore_ascii_case ◌==◌
expose_self = refl

expose_not_upstream : eq_ignore_ascii_case expose_headers upstream_header ≡ false
unfolding eq_ignore_ascii_case ◌==◌
expose_not_upstream = refl

upstream_not_expose : eq_ignore_ascii_case upstream_header expose_headers ≡ false
unfolding eq_ignore_ascii_case ◌==◌
upstream_not_expose = refl

module _ (u : UrlApi) (h : HeaderApi) where
  open h use {Headers, HeaderValue, from_str, from_static, to_str, get_all, insert, append, remove}
  open h use {get_all-insert, get_all-append, get_all-remove}

  -- The header value that an answer owes its client: the name of the chosen node, if that node is
  -- pinnable, the request is a read, and the answer comes from the node's scheme, host and port.
  pub record Owed (path : Text) (answered_by : u.Url) (chosen : Option (NodeEntry u))
      (v : HeaderValue) : Type 0 where
    pub node : NodeEntry u
    pub is_chosen : chosen ≡ some node
    pub is_pinnable : node.pinnable ≡ true
    pub is_read : contains get_endpoints path ≡ true
    pub same_scheme : u.scheme node.url ≡ u.scheme answered_by
    pub same_host : u.host_str node.url ≡ u.host_str answered_by
    pub same_port : u.port_or_known_default node.url ≡ u.port_or_known_default answered_by
    pub is_value : from_str node.name ≡ some v

  -- One value that is owed, or none where none is.
  abbrev pub Owing : Text → u.Url → Option (NodeEntry u) → List HeaderValue → Type 0
  Owing path answered_by chosen values =
      ((v : HeaderValue) × (values ≡ v ∷ []) × Owed path answered_by chosen v)
      ⊎ (values ≡ []) × ((v : HeaderValue) → ¬ Owed path answered_by chosen v)

  may_name-Owed :
      (path : Text) (answered_by : u.Url) (node : NodeEntry u) (v : HeaderValue)
      → may_name u h path answered_by node ≡ true
      → from_str node.name ≡ some v
      → Owed path answered_by (some node) v
  unfolding may_name is_get
  may_name-Owed path answered_by node v e value =
      let same = (same_origin_iff u node.url answered_by).0 (ground (arith, e)) in
      record {
        node = node;
        is_chosen = refl;
        is_pinnable = ground (arith, e);
        is_read = ground (arith, e);
        same_scheme = ap (λ (o : Origin u). o.0) same;
        same_host = ap (λ (o : Origin u). o.1) same;
        same_port = ap (λ (o : Origin u). o.2) same;
        is_value = value;
      }

  Owed-may_name :
      (path : Text) (answered_by : u.Url) (node : NodeEntry u) (v : HeaderValue)
      → Owed path answered_by (some node) v
      → may_name u h path answered_by node ≡ true
  unfolding may_name is_get
  Owed-may_name path answered_by node v o =
      let same : node ≡ o.node = ground (arith, o.is_chosen) in
      let origins : origin u o.node.url ≡ origin u answered_by =
        ap (λ s. (s, u.host_str o.node.url, u.port_or_known_default o.node.url)) o.same_scheme
        ∙ ap (λ s. (u.scheme answered_by, s, u.port_or_known_default o.node.url)) o.same_host
        ∙ ap (λ s. (u.scheme answered_by, u.host_str answered_by, s)) o.same_port in
      let here = (same_origin_iff u o.node.url answered_by).1 origins in
      ap (may_name u h path answered_by) same ∙ ground (arith, o.is_pinnable, o.is_read, here)

  expose_name-upstream :
      (headers : Headers) (name : HeaderValue)
      → get_all (expose_name u h headers name) upstream_header ≡ name ∷ []
  unfolding expose_name
  expose_name-upstream headers name =
      let sent = or_empty (collect_all to_str (get_all headers expose_headers)) in
      let named = insert headers upstream_header name in
      let first = get_all-insert headers upstream_header upstream_header name in
      let gone = get_all-remove named expose_headers upstream_header in
      elim (Option-cases (from_str (expose_header_value sent))) [
        | inl e ↦ ground (arith, e, first, upstream_self)
        | inr (v, e) ↦ ground (
          arith,
          e,
          first,
          upstream_self,
          expose_not_upstream,
          gone,
          get_all-insert (remove named expose_headers) expose_headers upstream_header v,
          get_all-append named expose_headers upstream_header (from_static upstream_header),
        )
      ]

  -- The upstream header of an answer is the firewall's own, whatever the upstream sent: it has one
  -- value, the name of the chosen node, if that node is pinnable, the request is a read, the answer
  -- comes from the scheme, host and port of the node's url and the name is a header value; and no
  -- value in all other cases.
  pub response_headers-upstream :
      (path : Text) (answered_by : u.Url) (chosen : Option (NodeEntry u)) (headers : Headers)
      → Owing path answered_by chosen
          (get_all (response_headers u h path answered_by chosen headers) upstream_header)
  unfolding response_headers name_node
  response_headers-upstream path answered_by none headers = inr (
    ground (arith, get_all-remove headers upstream_header upstream_header, upstream_self),
    λ v o. ground (arith, o.is_chosen),
  )
  response_headers-upstream path answered_by (some node) headers =
      let bare = get_all-remove headers upstream_header upstream_header in
      elim (Bool-cases (may_name u h path answered_by node)) [
        | inr barred ↦ inr (
          ground (arith, barred, bare, upstream_self),
          λ v o. ground (arith, barred, Owed-may_name path answered_by node v o),
        )
        | inl named ↦ elim (Option-cases (from_str node.name)) [
          | inl e ↦ inr (
            ground (arith, named, e, bare, upstream_self),
            λ v o.
                let same : node ≡ o.node = ground (arith, o.is_chosen) in
                let value : none ≡ some v =
                  sym e ∙ ap (λ (n : NodeEntry u). from_str n.name) same ∙ o.is_value in
                ground (arith, value),
          )
          | inr (v, e) ↦ inl (
            v,
            ground (arith, named, e, expose_name-upstream (remove headers upstream_header) v),
            may_name-Owed path answered_by node v named e,
          )
        ]
      ]

  expose_name-others :
      (headers : Headers) (name : HeaderValue) (m : Text)
      → eq_ignore_ascii_case upstream_header m ≡ false
      → eq_ignore_ascii_case expose_headers m ≡ false
      → get_all (expose_name u h headers name) m ≡ get_all headers m
  unfolding expose_name
  expose_name-others headers name m nu ne =
      let sent = or_empty (collect_all to_str (get_all headers expose_headers)) in
      let named = insert headers upstream_header name in
      let first = get_all-insert headers upstream_header m name in
      elim (Option-cases (from_str (expose_header_value sent))) [
        | inl e ↦ ground (arith, e, first)
        | inr (v, e) ↦ ground (
          arith,
          e,
          first,
          get_all-remove named expose_headers m,
          get_all-insert (remove named expose_headers) expose_headers m v,
          get_all-append named expose_headers m (from_static upstream_header),
        )
      ]

  -- Every header but X-Antelope-Upstream and Access-Control-Expose-Headers reaches the client as
  -- the upstream sent it.
  pub response_headers-others :
      (path : Text) (answered_by : u.Url) (chosen : Option (NodeEntry u)) (headers : Headers)
      (m : Text)
      → eq_ignore_ascii_case upstream_header m ≡ false
      → eq_ignore_ascii_case expose_headers m ≡ false
      → get_all (response_headers u h path answered_by chosen headers) m ≡ get_all headers m
  unfolding response_headers name_node
  response_headers-others path answered_by none headers m nu ne =
      ground (arith, get_all-remove headers upstream_header m)
  response_headers-others path answered_by (some node) headers m nu ne =
      let bare = get_all-remove headers upstream_header m in
      elim (Option-cases (from_str node.name)) [
        | inl e ↦ ground (arith, e, bare)
        | inr (v, e) ↦
            ground (arith, e, bare, expose_name-others (remove headers upstream_header) v m nu ne)
      ]

  -- Where the answer names its node and the expose header's new value is a header value: if every
  -- value that the upstream sent can be read, that one value replaces them; if not, all of them
  -- stay and the name of the upstream header is added behind them.
  pub expose_name-expose :
      (headers : Headers) (name value : HeaderValue)
      → from_str
          (expose_header_value (or_empty (collect_all to_str (get_all headers expose_headers))))
        ≡ some value
      → get_all (expose_name u h headers name) expose_headers ≡ (
          if eqb
            (length (or_empty (collect_all to_str (get_all headers expose_headers))))
            (length (get_all headers expose_headers))
          then value ∷ []
          else get_all headers expose_headers ++ from_static upstream_header ∷ [])
  unfolding expose_name
  expose_name-expose headers name value e =
      let named = insert headers upstream_header name in
      ground (
        arith,
        e,
        expose_self,
        upstream_not_expose,
        get_all-insert headers upstream_header expose_headers name,
        get_all-insert (remove named expose_headers) expose_headers expose_headers value,
        get_all-append named expose_headers expose_headers (from_static upstream_header),
      )
