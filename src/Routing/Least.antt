-- ===== src/Routing/Least.antt =====
-- The mode LeastConnected of antelope-firewall-lib/src/firewall_builder.rs: what `min_by` over the
-- loads finds.
use antelope_firewall.Prelude.{
  ℕ, ◌≡◌, refl, ap, ◌∙◌, ◌≢◌, ◌↔◌, ◌⊎◌, inl, inr, Bool, true, false, Option, none, some, List, [],
  ◌∷◌, ◌++◌, arith, all, All, In, Text, Bool-cases, Option-cases,
}
use antelope_firewall.Prelude.Maps.{Map}
use antelope_firewall.Node.{UrlApi, NodeEntry}
use antelope_firewall.RateLimiter.{F32}
use antelope_firewall.Routing.{
  Order, less, equal, greater, load, is_greater, min_by_load, choose_least_connected, has_host,
}

-- f32 on the numbers that are not NaN: a comparison turned round, and order is transitive.
pub record IsOrder {Float : Type 0} (partial_cmp : Float → Float → Option Order)
    (Number : Float → Type 0) : Type 0 where
  pub flips :
      (a b : Float)
      → Number a
      → Number b
      → partial_cmp a b ≡ some greater
      → partial_cmp b a ≡ some less
  pub transitive :
      (a b c : Float)
      → Number a
      → Number b
      → Number c
      → partial_cmp a b ≢ some greater
      → partial_cmp b c ≢ some greater
      → partial_cmp a c ≢ some greater

module _ (u : UrlApi) (f : F32) (partial_cmp : f.Float → f.Float → Option Order)
    (Number : f.Float → Type 0) (order : IsOrder partial_cmp Number) (counts : Map ℕ) where
  abbrev Fine : NodeEntry u → Type 0
  Fine n = Number (load u f partial_cmp counts n)

  abbrev heavier : NodeEntry u → NodeEntry u → Bool
  heavier a b =
      is_greater u f partial_cmp (load u f partial_cmp counts a) (load u f partial_cmp counts b)

  is_greater_iff :
      (a b : f.Float) → (is_greater u f partial_cmp a b ≡ true) ↔ (partial_cmp a b ≡ some greater)
  unfolding is_greater
  is_greater_iff a b = go (partial_cmp a b) refl
    where
      go :
          (r : Option Order)
          → partial_cmp a b ≡ r
          → (is_greater u f partial_cmp a b ≡ true) ↔ (partial_cmp a b ≡ some greater)
      go none e = (λ h. ground (arith, e, h), λ h. ground (arith, e, h))
      go (some less) e = (λ h. ground (arith, e, h), λ h. ground (arith, e, h))
      go (some equal) e = (λ h. ground (arith, e, h), λ h. ground (arith, e, h))
      go (some greater) e = (λ h. e, λ h. ground (arith, e, h))

  not_greater :
      (a b : f.Float) → is_greater u f partial_cmp a b ≡ false → partial_cmp a b ≢ some greater
  not_greater a b h e = ground (arith, h, (is_greater_iff a b).1 e)

  heavier_flip : (a b : NodeEntry u) → Fine a → Fine b → heavier a b ≡ true → heavier b a ≡ false
  heavier_flip a b na nb h = elim (Bool-cases (heavier b a)) [
    | inr t ↦ t
    | inl t ↦
        let la = load u f partial_cmp counts a in
        let lb = load u f partial_cmp counts b in
        let down = order.flips la lb na nb ((is_greater_iff la lb).0 h) in
        ground (arith, down, (is_greater_iff lb la).0 t)
  ]

  heavier_trans :
      (a b c : NodeEntry u)
      → Fine a
      → Fine b
      → Fine c
      → heavier a b ≡ false
      → heavier b c ≡ false
      → heavier a c ≡ false
  heavier_trans a b c na nb nc h k = elim (Bool-cases (heavier a c)) [
    | inr t ↦ t
    | inl t ↦
        let la = load u f partial_cmp counts a in
        let lb = load u f partial_cmp counts b in
        let lc = load u f partial_cmp counts c in
        absurd (
          order.transitive la lb lc na nb nc (not_greater la lb h) (not_greater lb lc k)
            ((is_greater_iff la lc).0 t))
  ]

  -- A node with no lighter node in the list and only heavier ones before it.
  pub record Least (m : NodeEntry u) (urls : List (NodeEntry u)) : Type 0 where
    pub before : List (NodeEntry u)
    pub behind : List (NodeEntry u)
    pub place : urls ≡ before ++ m ∷ behind
    pub lightest : All (λ n. heavier m n ≡ false) urls
    pub first : All (λ n. heavier n m ≡ true) before

  heavier_trans_false :
      (a b c : NodeEntry u)
      → Fine a
      → Fine b
      → Fine c
      → heavier a b ≡ true
      → heavier c b ≡ false
      → heavier a c ≡ true
  heavier_trans_false a b c na nb nc h k = elim (Bool-cases (heavier a c)) [
    | inl t ↦ t
    | inr t ↦ ground (arith, h, heavier_trans a c b na nc nb t k)
  ]

  -- A heavier node in front of the list.
  Least-front :
      (m best node : NodeEntry u) (nodes : List (NodeEntry u))
      → Fine m
      → Fine best
      → Fine node
      → heavier best node ≡ true
      → Least m (node ∷ nodes)
      → Least m (best ∷ node ∷ nodes)
  Least-front m best node nodes nm nb nn h l = record {
    before = best ∷ l.before;
    behind = l.behind;
    place = ap (λ t. best ∷ t) l.place;
    lightest = (
      heavier_trans m node best nm nn nb l.lightest.0 (heavier_flip best node nb nn h),
      l.lightest,
    );
    first = (heavier_trans_false best node m nb nn nm h l.lightest.0, l.first);
  }

  -- A node no lighter than the first, behind it.
  Least-second :
      (m best node : NodeEntry u) (nodes before behind : List (NodeEntry u))
      → Fine m
      → Fine best
      → Fine node
      → heavier best node ≡ false
      → best ∷ nodes ≡ before ++ m ∷ behind
      → All (λ n. heavier m n ≡ false) (best ∷ nodes)
      → All (λ n. heavier n m ≡ true) before
      → Least m (best ∷ node ∷ nodes)
  Least-second m best node nodes [] behind nm nb nn h place lightest first =
      let same : best ≡ m = ground (arith, place) in
      record {
        before = [];
        behind = node ∷ nodes;
        place = ap (λ t. t ∷ node ∷ nodes) same;
        lightest = (lightest.0, (heavier_trans m best node nm nb nn lightest.0 h, lightest.1));
        first = tt;
      }
  Least-second m best node nodes (x ∷ xs) behind nm nb nn h place lightest first =
      let same : best ≡ x = ground (arith, place) in
      let tail : nodes ≡ xs ++ m ∷ behind = ground (arith, place) in
      let above : heavier best m ≡ true = ap (λ t. heavier t m) same ∙ first.0 in
      let second : heavier node m ≡ true = elim (Bool-cases (heavier node m)) [
        | inl t ↦ t
        | inr t ↦ ground (arith, above, heavier_trans best node m nb nn nm h t)
      ] in
      record {
        before = best ∷ node ∷ xs;
        behind = behind;
        place = ap (λ t. best ∷ node ∷ t) tail;
        lightest = (lightest.0, (heavier_trans m best node nm nb nn lightest.0 h, lightest.1));
        first = (above, (second, first.1));
      }

  min_by_load-Least :
      (best : NodeEntry u) (nodes : List (NodeEntry u))
      → Fine best
      → All Fine nodes
      → Fine (min_by_load u f partial_cmp counts best nodes)
        × Least (min_by_load u f partial_cmp counts best nodes) (best ∷ nodes)
  unfolding min_by_load
  min_by_load-Least best [] fine fines = (
    fine,
    record { before = []; behind = []; place = refl; lightest = (self_false, tt); first = tt },
  )
    where
      self_false : heavier best best ≡ false
      self_false = elim (Bool-cases (heavier best best)) [
        | inr t ↦ t
        | inl t ↦ heavier_flip best best fine fine t
      ]
  min_by_load-Least best (node ∷ nodes) fine fines = elim (Bool-cases (heavier best node)) [
    | inl t ↦
        let (fm, l) = min_by_load-Least node nodes fines.0 fines.1 in
        rw t (fm, Least-front _ best node nodes fm fine fines.0 t l)
    | inr t ↦
        let (fm, l) = min_by_load-Least best nodes fine fines.1 in
        rw t (
          fm,
          Least-second _ best node nodes l.before l.behind fm fine fines.0 t l.place l.lightest
              l.first,
        )
  ]

  all_hosts :
      (urls : List (NodeEntry u))
      → all (has_host u f partial_cmp) urls ≡ true
      → All (λ n. (host : Text) × (u.host_str n.url ≡ some host)) urls
  all_hosts [] h = tt
  all_hosts (n ∷ ns) h = elim (Option-cases (u.host_str n.url)) [
    | inl e ↦ absurd (ground (arith, h, e))
    | inr found ↦ (found, all_hosts ns (ground (arith, h)))
  ]

  no_host :
      (urls : List (NodeEntry u))
      → all (has_host u f partial_cmp) urls ≡ false
      → (n : NodeEntry u) × In n urls × (u.host_str n.url ≡ none)
  no_host [] h = absurd (ground (arith, h))
  no_host (n ∷ ns) h = elim (Option-cases (u.host_str n.url)) [
    | inl e ↦ (n, inl refl, e)
    | inr (host, e) ↦ let (m, i, q) = no_host ns (ground (arith, h, e)) in (m, inr i, q)
  ]

  -- Where the loads are numbers, in the order that partial_cmp gives them, the mode chooses from a
  -- set whose nodes all have a host a node of the set of which no node has a lower load and all
  -- before it have a higher one: the first of the least connected. Without a set, or with a node
  -- that has no host, it panics.
  pub choose_least_connected-Least :
      (urls : List (NodeEntry u))
      → All Fine urls
      → ((m : NodeEntry u) × (choose_least_connected u f partial_cmp counts urls ≡ some m)
          × All (λ n. (host : Text) × (u.host_str n.url ≡ some host)) urls
          × Least m urls)
        ⊎ (choose_least_connected u f partial_cmp counts urls ≡ none)
          × ((urls ≡ []) ⊎ ((n : NodeEntry u) × In n urls × (u.host_str n.url ≡ none)))
  unfolding choose_least_connected
  choose_least_connected-Least [] fines = inr (refl, inl refl)
  choose_least_connected-Least (node ∷ nodes) fines =
      elim (Bool-cases (all (has_host u f partial_cmp) (node ∷ nodes))) [
        | inr t ↦ inr (ground (arith, t), inr (no_host (node ∷ nodes) t))
        | inl t ↦ inl (
          min_by_load u f partial_cmp counts node nodes,
          ground (arith, t),
          all_hosts (node ∷ nodes) t,
          (min_by_load-Least node nodes fines.0 fines.1).1,
        )
      ]
