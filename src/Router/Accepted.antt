-- ===== src/Router/Accepted.antt =====
-- The configurations that antelope-firewall-lib/src/router.rs accepts, and the nodes that it then
-- finds for a path.
use antelope_firewall.Prelude.{
  ℕ, zero, suc, ◌<◌, ◌≡◌, refl, sym, ap, ◌∙◌, subst, ◌≢◌, ◌⊎◌, inl, inr, Bool, true, false, ◌&&◌,
  ◌||◌, Option, none, some, List, [], ◌∷◌, map, arith, Text, eqb, keep, any, All, Bool-cases,
  Option-cases, contains, Result, ok, err, Result-cases, eqb_iff,
}
use antelope_firewall.Prelude.Maps.{get, contains_key, contains_key-get}
use antelope_firewall.Router.{
  paths_map, RouterNode, RouterConfig, Router, ParseConfigError, extend, weight_or_one,
  accepted_paths, router_nodes, router_from_config, without_slash, healthy_or_false, matching_nodes,
  get_nodes_for_path, keyword_error, weight_error, unknown_keyword, node_error, first_error,
  parse_config_from_file,
}
use antelope_firewall.Router.Paths.{group, get-paths_map, contains-extend}

-- The keyword stands for paths.
abbrev pub Known : Text → Type 0
Known k = (paths : List Text) × (group k ≡ some paths)

-- Its weight is not 0 and its keywords are known.
abbrev pub Accepted : RouterNode → Type 0
Accepted n = (n.routing_weight ≢ some 0) × All Known n.can_handle

abbrev pub stands_for : Option (List Text) → Text → Bool
stands_for none path = false
stands_for (some paths) path = contains paths path

-- A keyword of the list stands for the path.
abbrev pub handles : List Text → Text → Bool
handles keywords path = any (λ k. stands_for (group k) path) keywords

-- The nodes of the router are those of the configuration, in order.
abbrev pub Describes : List RouterNode → List (Text × ℕ × List Text) → Type 0
Describes [] [] = Unit
Describes [] (r ∷ rs) = ⊥
Describes (n ∷ ns) [] = ⊥
Describes (n ∷ ns) ((url, weight, paths) ∷ rs) =
    (url ≡ n.url)
    × (weight ≡ weight_or_one n.routing_weight)
    × ((path : Text) → contains paths path ≡ handles n.can_handle path)
    × Describes ns rs

Known-cases :
    (k : Text)
    → (Known k × (contains_key k paths_map ≡ true))
      ⊎ ((Known k → ⊥) × (contains_key k paths_map ≡ false))
Known-cases k =
    let found = get-paths_map k in
    let key = contains_key-get k paths_map in
    elim (Option-cases (get k paths_map)) [
      | inl e ↦ inr ((λ known. cc (sym found, e, known.1)), key ∙ ground (arith, e))
      | inr (paths, e) ↦ inl ((paths, sym found ∙ e), key ∙ ground (arith, e))
    ]

-- The check of the keywords finds one that is not known, if there is one.
unknown_keyword_cases :
    (ks : List Text)
    → (All Known ks × (unknown_keyword ks ≡ none))
      ⊎ ((All Known ks → ⊥) × (e : ParseConfigError) × (unknown_keyword ks ≡ some e))
unfolding unknown_keyword
unknown_keyword_cases [] = inl (tt, refl)
unknown_keyword_cases (k ∷ ks) = elim (Known-cases k) [
  | inr (unknown, e) ↦ inr ((λ a. unknown a.0), keyword_error k, rw e refl)
  | inl (known, e) ↦ elim (unknown_keyword_cases ks) [
    | inl (every, r) ↦ inl ((known, every), rw e r)
    | inr (not_all, er, r) ↦ inr ((λ a. not_all a.1), er, rw e r)
  ]
]

node_error_cases :
    (n : RouterNode)
    → (Accepted n × (node_error n ≡ none))
      ⊎ ((Accepted n → ⊥) × (e : ParseConfigError) × (node_error n ≡ some e))
unfolding node_error
node_error_cases n = elim (unknown_keyword_cases n.can_handle) [
  | inl (every, r) ↦ elim (Option-cases n.routing_weight) [
    | inl w ↦ inl (((λ e. cc), every), ground (arith, w, r))
    | inr (weight, w) ↦ elim (Bool-cases (eqb weight 0)) [
      | inl z ↦ inr (
        (λ a. a.0 (w ∙ ap (λ (k : ℕ). some k) ((eqb_iff weight 0).0 z))),
        weight_error n.name,
        rw (w, z) refl,
      )
      | inr z ↦ inl (((λ e. ground (arith, w, e, z)), every), ground (arith, w, z, r))
    ]
  ]
  | inr (not_all, er, r) ↦ elim (Option-cases n.routing_weight) [
    | inl w ↦ inr ((λ a. not_all a.1), er, ground (arith, w, r))
    | inr (weight, w) ↦ elim (Bool-cases (eqb weight 0)) [
      | inl z ↦ inr ((λ a. not_all a.1), weight_error n.name, rw (w, z) refl)
      | inr z ↦ inr ((λ a. not_all a.1), er, ground (arith, w, z, r))
    ]
  ]
]

first_error_cases :
    (ns : List RouterNode)
    → (All Accepted ns × (first_error ns ≡ none))
      ⊎ ((All Accepted ns → ⊥) × (e : ParseConfigError) × (first_error ns ≡ some e))
unfolding first_error
first_error_cases [] = inl (tt, refl)
first_error_cases (n ∷ ns) = elim (node_error_cases n) [
  | inr (refused, e, r) ↦ inr ((λ a. refused a.0), e, ground (arith, r))
  | inl (fine, r) ↦ elim (first_error_cases ns) [
    | inl (every, q) ↦ inl ((fine, every), ground (arith, r, q))
    | inr (not_all, e, q) ↦ inr ((λ a. not_all a.1), e, ground (arith, r, q))
  ]
]

accepted_paths_total :
    (acc ks : List Text)
    → All Known ks
    → (paths : List Text) × (accepted_paths acc ks ≡ some paths)
      × ((path : Text) → contains paths path ≡ (contains acc path || handles ks path))
unfolding accepted_paths
accepted_paths_total acc [] known = (acc, refl, λ path. ground arith)
accepted_paths_total acc (k ∷ ks) known =
    let (here, e) = known.0 in
    let (paths, r, same) = accepted_paths_total (extend acc here) ks known.1 in
    (
      paths,
      ground (arith, get-paths_map k, e, r),
      λ path. ground (arith, same path, contains-extend acc here path, e),
    )

router_nodes_total :
    (ns : List RouterNode)
    → All Accepted ns
    → (rs : List (Text × ℕ × List Text)) × (router_nodes ns ≡ some rs) × Describes ns rs
unfolding router_nodes
router_nodes_total [] fine = ([], refl, tt)
router_nodes_total (n ∷ ns) fine =
    let (paths, e, same) = accepted_paths_total [] n.can_handle fine.0.1 in
    let (rs, r, described) = router_nodes_total ns fine.1 in
    (
      (n.url, weight_or_one n.routing_weight, paths) ∷ rs,
      ground (arith, e, r),
      (refl, refl, (λ path. same path), described),
    )

-- A file that toml's parser makes a configuration of is read without a panic: a configuration whose
-- nodes all have weights other than 0 and known keywords is accepted, and its router has these nodes
-- in order, each with its weight, or 1 where it gives none, and the paths that its keywords stand for;
-- any other configuration is refused with an error.
pub parse_config_from_file_cases :
    (text : Text) (from_str : Text → Result Text RouterConfig) (config : RouterConfig)
    → from_str text ≡ ok config
    → (All Accepted config.nodes
        × (router : Router) × (parse_config_from_file (ok text) from_str
            ≡ some (ok (router, config)))
        × Describes config.nodes router.nodes)
      ⊎ ((All Accepted config.nodes → ⊥)
          × (e : ParseConfigError) × (parse_config_from_file (ok text) from_str ≡ some (err e)))
unfolding parse_config_from_file router_from_config
parse_config_from_file_cases text from_str config parsed = elim (first_error_cases config.nodes) [
  | inr (refused, e, r) ↦ inr (refused, e, ground (arith, parsed, r))
  | inl (every, r) ↦
      let (rs, q, described) = router_nodes_total config.nodes every in
      inl (
        every,
        record { nodes = rs; routing_mode = config.routing_mode; port = config.port },
        ground (arith, parsed, r, q),
        described,
      )
]

-- The nodes that are found for a path, from the configuration.
abbrev pub found_nodes : (Text → Option Bool) → List RouterNode → Text → List (ℕ × Text)
found_nodes healthy ns path =
    map (λ (n : RouterNode). (weight_or_one n.routing_weight, n.url))
      (keep (λ n. handles n.can_handle path && healthy_or_false (healthy n.url)) ns)

matching_nodes-found :
    (healthy : Text → Option Bool) (ns : List RouterNode) (rs : List (Text × ℕ × List Text)) (c : ℕ)
    (path : Text)
    → c < 128
    → Describes ns rs
    → matching_nodes healthy rs (c ∷ path) ≡ some (found_nodes healthy ns path)
unfolding matching_nodes without_slash
matching_nodes-found healthy [] [] c path small d = refl
matching_nodes-found healthy [] (r ∷ rs) c path small d = absurd d
matching_nodes-found healthy (n ∷ ns) [] c path small d = absurd d
matching_nodes-found healthy (n ∷ ns) ((url, weight, paths) ∷ rs) c path small d =
    let rest = matching_nodes-found healthy ns rs c path small d.3 in
    ground (arith, rest, d.0, d.1, d.2 path)

parsed_router :
    (text : Text) (from_str : Text → Result Text RouterConfig) (router : Router)
    (config : RouterConfig)
    → parse_config_from_file (ok text) from_str ≡ some (ok (router, config))
    → from_str text ≡ ok config
unfolding parse_config_from_file
parsed_router text from_str router config h = elim (Result-cases (from_str text)) [
  | inr (e, r) ↦ ground (arith, h, r)
  | inl (c, r) ↦ elim (Option-cases (first_error c.nodes)) [
    | inr (e, q) ↦ ground (arith, h, r, q)
    | inl q ↦ elim (Option-cases (router_from_config c)) [
      | inl s ↦ ground (arith, h, r, q, s)
      | inr (built, s) ↦
          let same : c ≡ config = ground (arith, h, r, q, s) in r ∙ ap (λ d. ok d) same
    ]
  ]
]

positive_weight : (w : Option ℕ) → (w ≢ some 0) → 0 < weight_or_one w
positive_weight none ne = omega arith
positive_weight (some zero) ne = absurd (ne refl)
positive_weight (some (suc w)) ne = omega arith

positive_weights :
    (healthy : Text → Option Bool) (ns : List RouterNode) (path : Text)
    → All Accepted ns
    → All (λ (found : ℕ × Text). 0 < found.0) (found_nodes healthy ns path)
positive_weights healthy [] path fine = tt
positive_weights healthy (n ∷ ns) path fine =
    let rest = positive_weights healthy ns path fine.1 in
    elim (Bool-cases (handles n.can_handle path && healthy_or_false (healthy n.url))) [
      | inr e ↦ rw e rest
      | inl e ↦ rw e (positive_weight n.routing_weight fine.0.0, rest)
    ]

-- Once a configuration is read, the nodes that are found for any path behind a first character of one
-- byte are, in the order of the configuration, exactly its nodes with a keyword that stands for the
-- path and a mark as healthy, each with its weight, and no weight is 0. The search does not panic.
pub get_nodes_for_path-found :
    (text : Text) (from_str : Text → Result Text RouterConfig) (router : Router)
    (config : RouterConfig) (healthy : Text → Option Bool) (c : ℕ) (path : Text)
    → parse_config_from_file (ok text) from_str ≡ some (ok (router, config))
    → c < 128
    → (get_nodes_for_path healthy router (c ∷ path) ≡ some (found_nodes healthy config.nodes path))
      × All (λ (found : ℕ × Text). 0 < found.0) (found_nodes healthy config.nodes path)
unfolding get_nodes_for_path
get_nodes_for_path-found text from_str router config healthy c path h small =
    elim (parse_config_from_file_cases text from_str config
      (parsed_router text from_str router config h)) [
        | inr (refused, e, r) ↦ ground (arith, h, r)
        | inl (every, router', r, described) ↦
            let same : router' ≡ router = ground (arith, h, r) in
            (
              matching_nodes-found healthy config.nodes router.nodes c path small
                  (subst (λ (s : Router). Describes config.nodes s.nodes) same described),
              positive_weights healthy config.nodes path every,
            )
      ]
