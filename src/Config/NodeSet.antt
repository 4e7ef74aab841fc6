-- ===== src/Config/NodeSet.antt =====
-- `Node`, `is_valid_pinnable_name` and `build_node_set` of antelope-firewall-lib/src/config.rs. The
-- set of entries is the list of its elements, the last one inserted first; an error carries the
-- text that the source formats into its message.
pub mod Laws
use antelope_firewall.Prelude.{
  ℕ, ◌-◌, Bool, true, false, not, ◌&&◌, ◌||◌, Option, none, some, List, [], ◌∷◌, Text, ◌==◌, leb,
  eqb, if◌then◌else◌, any, all, contains, Result, ok, err, ◌>>=◌, ok_or,
}
use antelope_firewall.Node.{UrlApi, NodeEntry, Origin, origin, node_eq, option_eq}

pub record Node : Type 0 where
  pub name : Text
  pub url : Text
  pub weight : Option ℕ
  pub pinnable : Bool

abbrev pub default_true : Bool
default_true = true

abbrev pub is_ascii_alphanumeric : ℕ → Bool
is_ascii_alphanumeric c =
    (leb b'0' c && leb c b'9') || (leb b'A' c && leb c b'Z') || (leb b'a' c && leb c b'z')

abbrev pub is_name_char : ℕ → Bool
is_name_char c = is_ascii_alphanumeric c || eqb c b'.' || eqb c b'_' || eqb c b'-'

abbrev is_empty : Text → Bool
is_empty [] = true
is_empty (c ∷ cs) = false

unfoldable pub is_valid_pinnable_name : Text → Bool
is_valid_pinnable_name name = not (is_empty name) && all is_name_char name

pub data NodeError : Type 0 where
  zero_weight : Text → NodeError
  duplicate_name : Text → NodeError
  invalid_name : Text → NodeError
  bad_url : Text → NodeError
  duplicate_origin : Text → NodeError
  duplicate_url : Text → NodeError

abbrev pub unwrap_or : Option ℕ → ℕ → ℕ
unwrap_or none d = d
unwrap_or (some n) d = n

module _ (u : UrlApi) where
  open u use {Url, parse}

  abbrev pub origin_eq : Origin u → Origin u → Bool
  origin_eq a b = (a.0 == b.0) && option_eq ◌==◌ a.1 b.1 && option_eq eqb a.2 b.2

  -- The three sets that the loop fills.
  pub record Seen : Type 0 where
    pub entries : List (NodeEntry u)
    pub pinnable_names : List Text
    pub origins : List (Origin u)

  abbrev pub nothing_seen : Seen
  nothing_seen = record { entries = []; pinnable_names = []; origins = [] }

  -- The rest of one round, once the url is parsed.
  unfoldable pub insert_parsed : Seen → Node → ℕ → List Text → Url → Result NodeError Seen
  insert_parsed s node weight names url =
      if any (origin_eq (origin u url)) s.origins
      then err (duplicate_origin node.name)
      else (let e : NodeEntry u = record {
        url = url;
        weight = weight;
        name = node.name;
        pinnable = node.pinnable;
      } in
          if any (node_eq u e) s.entries
          then err (duplicate_url node.name)
          else ok (record {
            entries = e ∷ s.entries;
            pinnable_names = names;
            origins = origin u url ∷ s.origins;
          }))

  -- One round of the loop.
  unfoldable pub add_node : Seen → Node → Result NodeError Seen
  add_node s node =
      let weight = unwrap_or node.weight 1 in
      if eqb weight 0
      then err (zero_weight node.name)
      else if node.pinnable && contains s.pinnable_names node.name
      then err (duplicate_name node.name)
      else if node.pinnable && not (is_valid_pinnable_name node.name)
      then err (invalid_name node.name)
      else (ok_or (parse node.url) (bad_url node.url)
          >>= insert_parsed s node weight
              (if node.pinnable then node.name ∷ s.pinnable_names else s.pinnable_names))

  unfoldable pub add_nodes : Seen → List Node → Result NodeError (List (NodeEntry u))
  add_nodes s [] = ok s.entries
  add_nodes s (node ∷ nodes) = add_node s node >>= λ s'. add_nodes s' nodes

  unfoldable pub build_node_set : List Node → Result NodeError (List (NodeEntry u))
  build_node_set nodes = add_nodes nothing_seen nodes
