-- ===== src/Upstream/Pinned.antt =====
-- Pinning by name (antelope-firewall-lib/src/firewall_builder.rs) over the node sets that
-- `build_node_set` (antelope-firewall-lib/src/config.rs) accepts.
use antelope_firewall.Prelude.{
  ◌≡◌, sym, ap, ◌∙◌, ◌↔◌, inl, inr, true, ◌&&◌, none, some, List, [], ◌∷◌, arith, Text, ◌==◌,
  text_eq_iff, eq_of_text, In, All, find-In, All-In, Option-cases, &&-true, contains, ok,
}
use antelope_firewall.Node.{UrlApi, NodeEntry}
use antelope_firewall.Config.NodeSet.{Node, build_node_set}
use antelope_firewall.Config.NodeSet.Laws.{IsNodeSet, pinnable_names_of, build_node_set_iff}
use antelope_firewall.Upstream.{find_pinned}

module _ (u : UrlApi) where
  -- A pinnable node of the given name.
  abbrev pub Bears : Text → NodeEntry u → Type 0
  Bears name e = (e.pinnable ≡ true) × (e.name ≡ name)

  Bears-contains :
      (name : Text) (es : List (NodeEntry u)) (e : NodeEntry u)
      → In e es
      → Bears name e
      → contains (pinnable_names_of u es) name ≡ true
  Bears-contains name [] e m b = elim m [ ]
  Bears-contains name (x ∷ xs) e (inl q) b = ground (
    arith,
    ap (λ (n : NodeEntry u). n.pinnable) q,
    ap (λ (n : NodeEntry u). n.name) q,
    text_eq_iff x.name name,
  )
  Bears-contains name (x ∷ xs) e (inr m) b = ground (arith, Bears-contains name xs e m b)

  -- In an accepted set a name is borne by one pinnable node at most.
  pub Bears-unique :
      (name : Text) (es : List (NodeEntry u)) {a b : NodeEntry u}
      → IsNodeSet u es
      → In a es
      → In b es
      → Bears name a
      → Bears name b
      → a ≡ b
  Bears-unique name [] v ma mb ba bb = elim ma [ ]
  Bears-unique name (x ∷ xs) v (inl p) (inl q) ba bb = p ∙ sym q
  Bears-unique name (x ∷ xs) v (inr m) (inr n) ba bb = Bears-unique name xs v.1 m n ba bb
  Bears-unique name (x ∷ xs) {a} {b} v (inl p) (inr n) ba bb = ground (
    arith,
    v.0.1,
    Bears-contains name xs b n bb,
    ap (λ (n : NodeEntry u). n.pinnable) p,
    ap (λ (n : NodeEntry u). contains (pinnable_names_of u xs) n.name) p,
    ap (contains (pinnable_names_of u xs)) ba.1,
  )
  Bears-unique name (x ∷ xs) {a} {b} v (inr m) (inl q) ba bb = ground (
    arith,
    v.0.1,
    Bears-contains name xs a m ba,
    ap (λ (n : NodeEntry u). n.pinnable) q,
    ap (λ (n : NodeEntry u). contains (pinnable_names_of u xs) n.name) q,
    ap (contains (pinnable_names_of u xs)) bb.1,
  )

  pub find_pinned-Bears :
      (name : Text) (urls : List (NodeEntry u)) {e : NodeEntry u}
      → find_pinned u name urls ≡ some e
      → In e urls × Bears name e
  unfolding find_pinned
  find_pinned-Bears name urls {e} h =
      let r = find-In (λ n. n.pinnable && (n.name == name)) urls {a = e} h in
      let b = &&-true e.pinnable (e.name == name) r.1 in (r.0, (b.0, eq_of_text e.name name b.1))

  find_pinned-none :
      (name : Text) (urls : List (NodeEntry u)) (e : NodeEntry u)
      → find_pinned u name urls ≡ none
      → In e urls
      → Bears name e
      → ⊥
  unfolding find_pinned
  find_pinned-none name [] e h m b = m
  find_pinned-none name (x ∷ xs) e h (inl q) b = ground (
    arith,
    ap (λ (n : NodeEntry u). n.pinnable) q,
    ap (λ (n : NodeEntry u). n.name) q,
    text_eq_iff x.name name,
  )
  find_pinned-none name (x ∷ xs) e h (inr m) b = find_pinned-none name xs e (ground arith) m b

  -- A name pins a node of the matched urls just when the node bears it: the answer depends neither
  -- on the iteration order of the set nor on which other nodes the health filter left, for urls
  -- that come from a set that `build_node_set` accepted.
  pub find_pinned_iff :
      (nodes : List Node) (set : List (NodeEntry u)) (urls : List (NodeEntry u)) (name : Text)
      (e : NodeEntry u)
      → build_node_set u nodes ≡ ok set
      → All (λ n. In n set) urls
      → (find_pinned u name urls ≡ some e) ↔ (In e urls × Bears name e)
  find_pinned_iff nodes set urls name e built sub = (
    find_pinned-Bears name urls,
    λ (m, b). elim (Option-cases (find_pinned u name urls)) [
      | inl h ↦ absurd (find_pinned-none name urls e h m b)
      | inr (f, h) ↦
          let (mf, bf) = find_pinned-Bears name urls h in
          let v = ((build_node_set_iff u nodes set).0 built).1 in
          let same =
            Bears-unique name set {a = f} {b = e} v (All-In (λ n. In n set) urls sub mf)
              (All-In (λ n. In n set) urls sub m) bf b in
          h ∙ ap some same
    ],
  )
