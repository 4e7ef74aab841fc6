-- ===== src/Routing/Choice.antt =====
-- What the routing modes choose (antelope-firewall-lib/src/firewall_builder.rs).
use antelope_firewall.Prelude.{
  ℕ, zero, suc, ◌-◌, ◌%◌, ◌≤◌, ◌<◌, ◌≡◌, refl, sym, ap, ◌∙◌, subst, ◌⊎◌, inl, inr, Bool, false,
  Option, some, List, [], ◌∷◌, map, arith, Text, ltb, eqb, if◌then◌else◌, get_elem?, all, In,
  Bool-cases, Option-cases,
}
use antelope_firewall.Prelude.Maps.{Map, get}
use antelope_firewall.Node.{UrlApi, NodeEntry}
use antelope_firewall.RateLimiter.{F32, u64_mod}
use antelope_firewall.Routing.{
  RoutingModeState, round_robin_state, least_connected_state, random_state, round_robin, to_state,
  Order, pick_weighted, sum_weights, fetch_add, choose_round_robin, load, is_greater, min_by_load,
  choose_least_connected, choose, has_host,
}
use antelope_firewall.Routing.RoundRobin.{pick_weighted-total}

get_elem?-In : {A : Type 0} (xs : List A) (i : ℕ) {a : A} → get_elem? xs i ≡ some a → In a xs
get_elem?-In [] i h = cc
get_elem?-In (x ∷ xs) zero h = inl (ground arith)
get_elem?-In (x ∷ xs) (suc i) h = inr (get_elem?-In xs i h)

module _ (u : UrlApi) where
  pick_weighted-In :
      (k : ℕ) (es : List (NodeEntry u)) {e : NodeEntry u} → pick_weighted u k es ≡ some e → In e es
  unfolding pick_weighted
  pick_weighted-In k [] h = cc
  pick_weighted-In k (x ∷ xs) {e} h = elim (Bool-cases (ltb k x.weight)) [
    | inl hit ↦ let q : x ≡ e = ground (arith, hit) in inl (sym q)
    | inr miss ↦ inr (pick_weighted-In (k - x.weight) xs {e = e} (rw miss at h))
  ]

  module _ (f : F32) (partial_cmp : f.Float → f.Float → Option Order) where
    min_by_load-In :
        (counts : Map ℕ) (best : NodeEntry u) (es : List (NodeEntry u))
        → (min_by_load u f partial_cmp counts best es ≡ best)
          ⊎ In (min_by_load u f partial_cmp counts best es) es
    unfolding min_by_load
    min_by_load-In counts best [] = inl refl
    min_by_load-In counts best (x ∷ xs) =
        elim (Bool-cases (
          is_greater u f partial_cmp (load u f partial_cmp counts best)
            (load u f partial_cmp counts x))) [
              | inl t ↦
                  take_over t (elim (min_by_load-In counts x xs) [
                    | inl e ↦ inr (inl e)
                    | inr m ↦ inr (inr m)
                  ])
              | inr t ↦
                  take_over t
                    (elim (min_by_load-In counts best xs) [ inl e ↦ inl e | inr m ↦ inr (inr m) ])
            ]
      where
        take_over :
            {b : Bool}
            → is_greater u f partial_cmp
                (load u f partial_cmp counts best)
                (load u f partial_cmp counts x)
              ≡ b
            → (min_by_load u f partial_cmp counts (if b then x else best) xs ≡ best)
              ⊎ In (min_by_load u f partial_cmp counts (if b then x else best) xs) (x ∷ xs)
            → (min_by_load u f partial_cmp counts best (x ∷ xs) ≡ best)
              ⊎ In (min_by_load u f partial_cmp counts best (x ∷ xs)) (x ∷ xs)
        take_over t h =
            subst
              (λ b.
                (min_by_load u f partial_cmp counts (if b then x else best) xs ≡ best)
                ⊎ In (min_by_load u f partial_cmp counts (if b then x else best) xs) (x ∷ xs))
              (sym t) h

    -- Whatever the mode, its counters and the random draw, a chosen node is one of the matched set.
    pub choose-In :
        (mode : RoutingModeState) (sample : List ℕ → Option ℕ) (path : Text)
        (urls : List (NodeEntry u)) (e : NodeEntry u) (mode' : RoutingModeState)
        → choose u f partial_cmp mode sample path urls ≡ some (some e, mode')
        → In e urls
    unfolding choose choose_least_connected choose_round_robin
    choose-In (least_connected_state counts) sample path [] e mode' h = cc
    choose-In (least_connected_state counts) sample path (x ∷ xs) e mode' h =
        elim (Bool-cases (all (has_host u f partial_cmp) (x ∷ xs))) [
          | inl t ↦
              let q : min_by_load u f partial_cmp counts x xs ≡ e = ground (arith, t) in
              elim (min_by_load-In counts x xs) [
                | inl p ↦ inl (sym q ∙ p)
                | inr m ↦ inr (subst (λ z. In z xs) q m)
              ]
          | inr t ↦ ground (arith, t)
        ]
    choose-In (round_robin_state counts) sample path urls e mode' h =
        elim (Bool-cases (eqb (sum_weights u urls % u64_mod) 0)) [
          | inl t ↦ ground (arith, t)
          | inr t ↦
              pick_weighted-In ((fetch_add u path counts).0 % (sum_weights u urls % u64_mod)) urls
                {e = e} (ground (arith, t))
        ]
    choose-In random_state sample path urls e mode' h =
        elim (Option-cases (sample (map (λ node. node.weight) urls))) [
          | inl t ↦ ground (arith, t)
          | inr (i, t) ↦ elim (Option-cases (get_elem? urls i)) [
            | inl q ↦ ground (arith, t, q)
            | inr (x, q) ↦ get_elem?-In urls i (ground (arith, t, q))
          ]
        ]

    -- Round robin never leaves the matched set without an answer: with positive weights whose sum
    -- fits u64 it always chooses a node.
    pub choose-round_robin_total :
        (counts : Map ℕ) (sample : List ℕ → Option ℕ) (path : Text) (urls : List (NodeEntry u))
        → 0 < sum_weights u urls
        → sum_weights u urls < u64_mod
        → (e : NodeEntry u) × (choose u f partial_cmp (round_robin_state counts) sample path urls
            ≡ some (some e, round_robin_state (fetch_add u path counts).1))
          × In e urls
    unfolding choose choose_round_robin
    choose-round_robin_total counts sample path urls pos small =
        let total = sum_weights u urls in
        let n = (fetch_add u path counts).0 in
        let t : total % u64_mod ≡ total = omega arith in
        let (e, q, m) = pick_weighted-total u (n % total) urls (omega arith) in
        (
          e,
          ground (
            arith,
            t,
            q,
            ap (λ (k : ℕ). pick_weighted u (n % k) urls) t,
            ap (λ (k : ℕ). eqb k 0) t,
          ),
          m,
        )

    -- The counters of the routing modes are never created: from the state that the configured mode
    -- `round_robin` builds, a request takes the first node of the set, if its weight is positive
    -- and the total weight fits u64, and the state stays as it was, so that the next request takes
    -- it again.
    pub round_robin_stuck :
        (sample : List ℕ → Option ℕ) (path : Text) (e : NodeEntry u) (es : List (NodeEntry u))
        → 1 ≤ e.weight
        → sum_weights u (e ∷ es) < u64_mod
        → choose u f partial_cmp (to_state round_robin) sample path (e ∷ es)
          ≡ some (some e, to_state round_robin)
    unfolding to_state choose choose_round_robin fetch_add pick_weighted get
    round_robin_stuck sample path e es pos small =
        let total = sum_weights u (e ∷ es) in
        let t : total % u64_mod ≡ total = omega arith in
        let p : eqb total 0 ≡ false = unfold sum_weights in ground arith in
        let z : 0 % total ≡ 0 = omega arith in
        ground (
          arith,
          t,
          p,
          z,
          ap (λ (k : ℕ). pick_weighted u (0 % k) (e ∷ es)) t,
          ap (λ (k : ℕ). eqb k 0) t,
        )
