-- ===== src/Upstream.antt =====
-- Upstream affinity, of antelope-firewall-lib/src/firewall_builder.rs: the query parameter by which
-- a client asks for a node, the node that the name finds, the expose header, and the address that
-- limits and block lists key on. Header maps and addresses belong to other crates: their operations
-- are the parameters `HeaderApi` and `IpApi`.
pub mod Pinned
pub mod Query
pub mod Expose
use antelope_firewall.Prelude.{
  ◌+◌, ◌-◌, ◌≡◌, Bool, not, ◌&&◌, Option, none, some, List, [], ◌∷◌, ◌++◌, map, Text, codes, ◌==◌,
  if◌then◌else◌, keep, any, find,
}
use antelope_firewall.Prelude.Strings.{
  split, join, strip_prefix, trim, is_empty, find_map, flat_map, eq_ignore_ascii_case,
}
use antelope_firewall.Node.{UrlApi, NodeEntry}
use antelope_firewall.Config.Endpoints.{is_get}

abbrev pub upstream_header : Text
upstream_header = codes "X-Antelope-Upstream"

abbrev pub expose_headers : Text
expose_headers = codes "Access-Control-Expose-Headers"

abbrev pub filter_option : {A : Type 0} → (A → Bool) → Option A → Option A
filter_option p none = none
filter_option p (some a) = if p a then some a else none

-- Read the requested upstream name out of a query string.
unfoldable pub upstream_param : Option Text → Option Text
upstream_param none = none
upstream_param (some query) =
    filter_option (λ name. not (is_empty name))
      (find_map (strip_prefix (codes "upstream=")) (split b'&' query))

-- The upstream name a request asks for. Only a read endpoint can ask.
unfoldable pub requested_upstream : Text → Option Text → Option Text
requested_upstream path query = if not (is_get path) then none else upstream_param query

-- The entries of the values of a list header.
unfoldable pub header_entries : List Text → List Text
header_entries existing =
    keep (λ entry. not (is_empty entry)) (map trim (flat_map (split b',') existing))

unfoldable pub with_upstream : List Text → List Text
with_upstream entries =
    if any (λ entry. eq_ignore_ascii_case entry upstream_header) entries
    then entries
    else entries ++ upstream_header ∷ []

-- Build the value of the expose header, keeping what the upstream sent.
unfoldable pub expose_header_value : List Text → Text
expose_header_value existing = join (codes ", ") (with_upstream (header_entries existing))

-- The node of the matched set that a requested name pins.
module _ (u : UrlApi) where
  unfoldable pub find_pinned : Text → List (NodeEntry u) → Option (NodeEntry u)
  find_pinned name urls = find (λ node. node.pinnable && (node.name == name)) urls

-- hyper's `HeaderMap` and `HeaderValue`. Names are compared without regard to ASCII case.
pub record HeaderApi : Type 1 where
  pub Headers : Type 0
  pub HeaderValue : Type 0
  pub from_str : Text → Option HeaderValue
  pub from_static : Text → HeaderValue
  pub to_str : HeaderValue → Option Text
  pub get_all : Headers → Text → List HeaderValue
  pub insert : Headers → Text → HeaderValue → Headers
  pub append : Headers → Text → HeaderValue → Headers
  pub remove : Headers → Text → Headers
  pub to_str_from_str : (t : Text) (v : HeaderValue) → from_str t ≡ some v → to_str v ≡ some t
  pub get_all-insert :
      (h : Headers) (n m : Text) (v : HeaderValue)
      → get_all (insert h n v) m ≡ (if eq_ignore_ascii_case n m then v ∷ [] else get_all h m)
  pub get_all-append :
      (h : Headers) (n m : Text) (v : HeaderValue)
      → get_all (append h n v) m
        ≡ (if eq_ignore_ascii_case n m then get_all h m ++ v ∷ [] else get_all h m)
  pub get_all-remove :
      (h : Headers) (n m : Text)
      → get_all (remove h n) m ≡ (if eq_ignore_ascii_case n m then [] else get_all h m)

-- `HeaderMap::get`: the first of the values.
abbrev pub get_header : (h : HeaderApi) → h.Headers → Text → Option h.HeaderValue
get_header h headers name = elim (h.get_all headers name) [ [] ↦ none | v ∷ vs ↦ some v ]

-- std's `IpAddr`, by its text form.
pub record IpApi : Type 1 where
  pub Ip : Type 0
  pub parse_ip : Text → Option Ip
  pub show_ip : Ip → Text

abbrev bind_option : {A B : Type 0} → Option A → (A → Option B) → Option B
bind_option none f = none
bind_option (some a) f = f a

abbrev head? : {A : Type 0} → List A → Option A
head? [] = none
head? (x ∷ xs) = some x

abbrev pub unwrap : {A : Type 0} → Option A → A → A
unwrap none d = d
unwrap (some a) d = a

module _ (h : HeaderApi) (i : IpApi) where
  open h use {Headers, HeaderValue, to_str}
  open i use {Ip, parse_ip}

  -- The client IP from a configured forwarded header, or the socket peer.
  unfoldable pub client_ip_from_headers : Option Text → Headers → Ip → Ip
  client_ip_from_headers none headers peer = peer
  client_ip_from_headers (some name) headers peer =
      unwrap
        (bind_option
          (bind_option (bind_option (get_header h headers name) to_str)
            (λ value. head? (split b',' value)))
          (λ first. parse_ip (trim first)))
        peer
