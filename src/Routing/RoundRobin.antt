-- ===== src/Routing/RoundRobin.antt =====
-- The weighted round robin of `handle_request` (antelope-firewall-lib/src/firewall_builder.rs).
use antelope_firewall.Prelude.{
  ℕ, ◌-◌, ◌<◌, ◌≡◌, refl, inl, inr, some, List, [], ◌∷◌, arith, ltb, In, Bool-cases,
}
use antelope_firewall.Node.{UrlApi, NodeEntry}
use antelope_firewall.Routing.{pick_weighted, sum_weights}

module _ (u : UrlApi) where
  -- Every count lands on some node, if the weights are positive and there is a node.
  pub pick_weighted-total :
      (k : ℕ) (es : List (NodeEntry u))
      → k < sum_weights u es
      → (e : NodeEntry u) × (pick_weighted u k es ≡ some e) × In e es
  unfolding pick_weighted sum_weights
  pick_weighted-total k [] h = absurd (omega arith)
  pick_weighted-total k (x ∷ xs) h = elim (Bool-cases (ltb k x.weight)) [
    | inl hit ↦ (x, rw hit, inl refl)
    | inr miss ↦
        let (e, q, m) = pick_weighted-total (k - x.weight) xs (ground arith) in
        (e, rw miss q, inr m)
  ]
