-- ===== src/Firewall/Headers.antt =====
-- The headers of a forwarded answer in `handle_request`
-- (antelope-firewall-lib/src/firewall_builder.rs).
use antelope_firewall.Prelude.{
  Bool, ◌&&◌, Option, none, some, List, [], ◌∷◌, Text, eqb, if◌then◌else◌, length,
}
use antelope_firewall.Node.{UrlApi, NodeEntry, same_origin}
use antelope_firewall.Config.Endpoints.{is_get}
use antelope_firewall.Upstream.{HeaderApi, upstream_header, expose_headers, expose_header_value}

-- `Iterator::collect` into an `Option<Vec<_>>`.
abbrev pub collect_all : {A B : Type 0} → (A → Option B) → List A → Option (List B)
collect_all f [] = some []
collect_all f (x ∷ xs) = elim (f x) [
  | none ↦ none
  | some y ↦ elim (collect_all f xs) [ none ↦ none | some ys ↦ some (y ∷ ys) ]
]

abbrev pub or_empty : {A : Type 0} → Option (List A) → List A
or_empty none = []
or_empty (some xs) = xs

module _ (u : UrlApi) (h : HeaderApi) where
  open h use {Headers, HeaderValue, from_str, from_static, to_str, get_all, insert, append, remove}

  -- Name the node, and expose the header to browsers.
  unfoldable pub expose_name : Headers → HeaderValue → Headers
  expose_name headers name =
      let all_sent = get_all headers expose_headers in
      let sent = or_empty (collect_all to_str all_sent) in
      let readable = eqb (length sent) (length all_sent) in
      let named = insert headers upstream_header name in
      elim (from_str (expose_header_value sent)) [
        | none ↦ named
        | some value ↦
            if readable
            then insert (remove named expose_headers) expose_headers value
            else append named expose_headers (from_static upstream_header)
      ]

  -- May the answer name this node: it is pinnable, the request is a read, and no redirect moved the
  -- answer to another origin.
  unfoldable pub may_name : Text → u.Url → NodeEntry u → Bool
  may_name path answered_by node =
      node.pinnable && is_get path && same_origin u node.url answered_by

  unfoldable pub name_node : Text → u.Url → Option (NodeEntry u) → Headers → Headers
  name_node path answered_by none headers = headers
  name_node path answered_by (some node) headers =
      if may_name path answered_by node
      then elim (from_str node.name) [ none ↦ headers | some name ↦ expose_name headers name ]
      else headers

  unfoldable pub response_headers : Text → u.Url → Option (NodeEntry u) → Headers → Headers
  response_headers path answered_by chosen headers =
      name_node path answered_by chosen (remove headers upstream_header)
