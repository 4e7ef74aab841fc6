-- ===== src/Config/NodeSet/Laws.antt =====
-- What `build_node_set` (antelope-firewall-lib/src/config.rs) accepts.
use antelope_firewall.Prelude.{
  ◌≤◌, ◌≡◌, ap, ◌∙◌, subst, ◌≢◌, ◌↔◌, ◌⊎◌, inl, inr, true, false, Option, none, some, List, [], ◌∷◌,
  map, arith, Text, text_eq_refl, if◌then◌else◌, any, Bool-cases, Option-cases, contains, ok, err,
  >>=-eq-ok, Result-cases, err-injective,
}
use antelope_firewall.Node.{UrlApi, NodeEntry, Origin, origin, node_eq}
use antelope_firewall.Config.NodeSet.{
  Node, duplicate_url, is_valid_pinnable_name, unwrap_or, origin_eq, Seen, insert_parsed, add_node,
  add_nodes, build_node_set,
}

module _ (u : UrlApi) where
  open u use {Url, parse, url_eq, url_eq_iff}

  abbrev pub pinnable_names_of : List (NodeEntry u) → List Text
  pinnable_names_of [] = []
  pinnable_names_of (e ∷ es) =
      if e.pinnable then e.name ∷ pinnable_names_of es else pinnable_names_of es

  abbrev pub origins_of : List (NodeEntry u) → List (Origin u)
  origins_of es = map (λ e. origin u e.url) es

  -- A list of entries may take one more: its weight is positive, its origin is new, and if it is
  -- pinnable its name is valid and new among the pinnable ones.
  abbrev pub MayJoin : NodeEntry u → List (NodeEntry u) → Type 0
  MayJoin e es =
      (1 ≤ e.weight)
      × ((e.pinnable ≡ false)
          ⊎ ((is_valid_pinnable_name e.name ≡ true)
              × (contains (pinnable_names_of es) e.name ≡ false)))
      × (any (origin_eq u (origin u e.url)) (origins_of es) ≡ false)

  abbrev pub IsNodeSet : List (NodeEntry u) → Type 0
  IsNodeSet [] = Unit
  IsNodeSet (e ∷ es) = MayJoin e es × IsNodeSet es

  -- The entry that one configured node stands for, if its url parses.
  abbrev pub entry_of : Node → Option (NodeEntry u)
  entry_of node = elim (parse node.url) [
    | none ↦ none
    | some url ↦ some (record {
      url = url;
      weight = unwrap_or node.weight 1;
      name = node.name;
      pinnable = node.pinnable;
    })
  ]

  abbrev pub read_entries : List (NodeEntry u) → List Node → Option (List (NodeEntry u))
  read_entries es [] = some es
  read_entries es (node ∷ nodes) = elim (entry_of node) [
    | none ↦ none
    | some e ↦ read_entries (e ∷ es) nodes
  ]

  abbrev seen_of : List (NodeEntry u) → Seen u
  seen_of es = record {
    entries = es;
    pinnable_names = pinnable_names_of es;
    origins = origins_of es;
  }

  origin_eq_refl : (o : Origin u) → origin_eq u o o ≡ true
  origin_eq_refl (a, none, none) = ground (arith, text_eq_refl a)
  origin_eq_refl (a, none, some p) = ground (arith, text_eq_refl a)
  origin_eq_refl (a, some b, none) = ground (arith, text_eq_refl a, text_eq_refl b)
  origin_eq_refl (a, some b, some p) = ground (arith, text_eq_refl a, text_eq_refl b)

  -- A set that holds the url holds its origin.
  node_eq-origin :
      (e : NodeEntry u) (es : List (NodeEntry u))
      → any (node_eq u e) es ≡ true
      → any (origin_eq u (origin u e.url)) (origins_of es) ≡ true
  node_eq-origin e [] h = cc
  node_eq-origin e (x ∷ xs) h = elim (Bool-cases (node_eq u e x)) [
    | inl same ↦
        let p =
          ap (λ (v : Url). origin_eq u (origin u e.url) (origin u v))
            ((url_eq_iff e.url x.url).0 same) in
        ground (arith, p, origin_eq_refl (origin u e.url))
    | inr other ↦ ground (arith, other, node_eq-origin e xs)
  ]

  no_duplicate_url :
      (e : NodeEntry u) (es : List (NodeEntry u))
      → any (origin_eq u (origin u e.url)) (origins_of es) ≡ false
      → any (node_eq u e) es ≡ false
  no_duplicate_url e es h = ground (arith, node_eq-origin e es)

  abbrev entry_at : Node → Url → NodeEntry u
  entry_at node url = record {
    url = url;
    weight = unwrap_or node.weight 1;
    name = node.name;
    pinnable = node.pinnable;
  }

  add_node_ok :
      (es : List (NodeEntry u)) (node : Node) {s : Seen u}
      → add_node u (seen_of es) node ≡ ok s
      → (e : NodeEntry u) × (entry_of node ≡ some e) × (s ≡ seen_of (e ∷ es)) × MayJoin e es
  unfolding add_node insert_parsed
  add_node_ok es node {s} h = elim (Option-cases (parse node.url)) [
    | inl e ↦ ground (arith, e)
    | inr (url, e) ↦ (entry_at node url, ground (arith, e), ground (arith, e), ground (arith, e))
  ]

  add_node_join :
      (es : List (NodeEntry u)) (node : Node) (e : NodeEntry u)
      → entry_of node ≡ some e
      → MayJoin e es
      → add_node u (seen_of es) node ≡ ok (seen_of (e ∷ es))
  unfolding add_node insert_parsed
  add_node_join es node e h j = elim (Option-cases (parse node.url)) [
    | inl p ↦ ground (arith, p)
    | inr (url, p) ↦ ground (arith, p, no_duplicate_url e es)
  ]

  read_entries-IsNodeSet :
      (es : List (NodeEntry u)) (nodes : List Node) (r : List (NodeEntry u))
      → read_entries es nodes ≡ some r
      → IsNodeSet r
      → IsNodeSet es
  read_entries-IsNodeSet es [] r h v = subst IsNodeSet (ground arith) v
  read_entries-IsNodeSet es (node ∷ nodes) r h v = elim (Option-cases (entry_of node)) [
    | inl e ↦ ground (arith, e)
    | inr (x, e) ↦ (read_entries-IsNodeSet (x ∷ es) nodes r (ground (arith, e)) v).1
  ]

  add_nodes_ok :
      (es : List (NodeEntry u)) (nodes : List Node) (r : List (NodeEntry u))
      → IsNodeSet es
      → add_nodes u (seen_of es) nodes ≡ ok r
      → (read_entries es nodes ≡ some r) × IsNodeSet r
  unfolding add_nodes
  add_nodes_ok es [] r v h = (ground arith, subst IsNodeSet (ground arith) v)
  add_nodes_ok es (node ∷ nodes) r v h =
      let (s, added, rest) =
        >>=-eq-ok (add_node u (seen_of es) node) (λ s. add_nodes u s nodes) h in
      let (e, read, same, may) = add_node_ok es node added in
      let (q, w) = add_nodes_ok (e ∷ es) nodes r (may, v) (rw same at rest) in
      (ground (arith, read, q), w)

  add_nodes_join :
      (es : List (NodeEntry u)) (nodes : List Node) (r : List (NodeEntry u))
      → read_entries es nodes ≡ some r
      → IsNodeSet r
      → add_nodes u (seen_of es) nodes ≡ ok r
  unfolding add_nodes
  add_nodes_join es [] r h v = ground arith
  add_nodes_join es (node ∷ nodes) r h v = elim (Option-cases (entry_of node)) [
    | inl e ↦ ground (arith, e)
    | inr (x, e) ↦
        let more : read_entries (x ∷ es) nodes ≡ some r = ground (arith, e) in
        let may = read_entries-IsNodeSet (x ∷ es) nodes r more v in
        rw (add_node_join es node x e may.0) (add_nodes_join (x ∷ es) nodes r more v)
  ]

  -- `build_node_set` accepts a list of nodes just when every url parses and the entries have
  -- positive weights, pairwise different origins, and valid and pairwise different names where they
  -- are pinnable; it then returns exactly these entries.
  pub build_node_set_iff :
      (nodes : List Node) (es : List (NodeEntry u))
      → (build_node_set u nodes ≡ ok es) ↔ ((read_entries [] nodes ≡ some es) × IsNodeSet es)
  unfolding build_node_set
  build_node_set_iff nodes es =
      (λ h. add_nodes_ok [] nodes es tt h, λ h. add_nodes_join [] nodes es h.0 h.1)

  add_node-ne-duplicate_url :
      (es : List (NodeEntry u)) (node : Node) (n : Text)
      → add_node u (seen_of es) node ≢ err (duplicate_url n)
  unfolding add_node insert_parsed
  add_node-ne-duplicate_url es node n h = elim (Option-cases (parse node.url)) [
    | inl p ↦ ground (arith, p)
    | inr (url, p) ↦ ground (arith, p, no_duplicate_url (entry_at node url) es)
  ]

  add_nodes-ne-duplicate_url :
      (es : List (NodeEntry u)) (nodes : List Node) (n : Text)
      → add_nodes u (seen_of es) nodes ≢ err (duplicate_url n)
  unfolding add_nodes
  add_nodes-ne-duplicate_url es [] n h = cc
  add_nodes-ne-duplicate_url es (node ∷ nodes) n h =
      elim (Result-cases (add_node u (seen_of es) node)) [
        | inl (s, added) ↦
            let (e, _, same, _) = add_node_ok es node added in
            add_nodes-ne-duplicate_url (e ∷ es) nodes n (rw (added, same) at h)
        | inr (x, e) ↦
            let q : x ≡ duplicate_url n = err-injective (rw e at h) in
            add_node-ne-duplicate_url es node n (e ∙ ap err q)
      ]

  -- The last check of the loop never fires: two nodes with one url have one origin, and the origin
  -- check comes first.
  pub build_node_set-ne-duplicate_url :
      (nodes : List Node) (n : Text) → build_node_set u nodes ≢ err (duplicate_url n)
  unfolding build_node_set
  build_node_set-ne-duplicate_url nodes n = add_nodes-ne-duplicate_url [] nodes n
