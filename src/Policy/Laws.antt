-- ===== src/Policy/Laws.antt =====
-- What the configured buckets and matching rules of
-- antelope-firewall-lib/src/config.rs let through, count and match.
use antelope_firewall.Prelude.{
  ◌≡◌, refl, ◌↔◌, ◌⊎◌, inl, inr, Bool, true, false, Option, none, some, List, [], ◌∷◌, ◌++◌, map,
  arith, Text, codes, keep, In, Bool-cases, Option-cases, contains, Distinct,
}
use antelope_firewall.Prelude.Maps.{Map, get}
use antelope_firewall.Node.{UrlApi, NodeEntry}
use antelope_firewall.Config.Endpoints.{is_get, is_push, push-not-get}
use antelope_firewall.Health.{HealthChecker, is_healthy}
use antelope_firewall.Health.History.{filter_healthy_urls_iff}
use antelope_firewall.Filter.{find_matching_urls}
use antelope_firewall.Policy.{
  JsonApi, RequestInfo, collect_set, RatelimitBucket, contract, ip, sender, table, accounts, actors,
  selected, table_of, buckets_of, endpoint_rule, health_rule,
}

keep-contains :
    (p : Text → Bool) (xs : List Text) (x : Text)
    → contains xs x ≡ false
    → contains (keep p xs) x ≡ false
keep-contains p [] x h = refl
keep-contains p (y ∷ ys) x h = ground (arith, keep-contains p ys x)

Distinct-keep : (p : Text → Bool) (xs : List Text) → Distinct xs → Distinct (keep p xs)
Distinct-keep p [] d = tt
Distinct-keep p (x ∷ xs) d = elim (Bool-cases (p x)) [
  | inl t ↦ rw t (keep-contains p xs x d.0, Distinct-keep p xs d.1)
  | inr t ↦ rw t (Distinct-keep p xs d.1)
]

Distinct-collect_set : (xs : List Text) → Distinct (collect_set xs)
Distinct-collect_set [] = tt
Distinct-collect_set (x ∷ xs) = elim (Bool-cases (contains (collect_set xs) x)) [
  | inl t ↦ rw t (Distinct-collect_set xs)
  | inr t ↦ rw t (t, Distinct-collect_set xs)
]

Distinct-selected :
    (j : JsonApi) (m : Map (List Text)) (name : Text) (xs : List Text)
    → Distinct xs
    → Distinct (selected j m name xs)
unfolding selected
Distinct-selected j m name xs d = elim (Option-cases (get name m)) [
  | inl e ↦ rw (e, selected) d
  | inr (chosen, e) ↦ rw (e, selected) (Distinct-keep (contains chosen) xs d)
]

module _ (j : JsonApi) where
  open j use {Value}

  -- The buckets of every configured limiter are different keys.
  pub buckets_of-Distinct :
      (bucket : RatelimitBucket) (m : Map (List Text)) (name : Text) (req : RequestInfo)
      (body json : Value)
      → Distinct (buckets_of j bucket m name req body json)
  unfolding buckets_of
  buckets_of-Distinct contract m name req body json =
      Distinct-selected j m name _ (Distinct-collect_set (accounts j body))
  buckets_of-Distinct ip m name req body json = (refl, tt)
  buckets_of-Distinct sender m name req body json =
      Distinct-selected j m name _ (Distinct-collect_set (actors j body))
  buckets_of-Distinct table m name req body json =
      Distinct-collect_set
        (map (λ tab. req.ip ++ (codes "::" ++ tab)) (selected j m name (table_of j req body)))

  module _ (u : UrlApi) where
    -- The health that the matching asks for: all nodes pass where no checker is configured.
    abbrev pub passes_health : Option (HealthChecker u) → NodeEntry u → Bool
    passes_health none e = true
    passes_health (some h) e = is_healthy u h e.url

    abbrev pub matched :
        List (NodeEntry u)
        → List (NodeEntry u)
        → Option (HealthChecker u)
        → RequestInfo
        → Value
        → List (NodeEntry u)
    matched get_nodes push_nodes checker req body =
        find_matching_urls j.null
          (endpoint_rule j u get_nodes push_nodes ∷ health_rule j u checker ∷ []) req body

    endpoint_nodes-In :
        (get_nodes push_nodes : List (NodeEntry u)) (req : RequestInfo) (body : Value)
        (e : NodeEntry u)
        → In e (endpoint_rule j u get_nodes push_nodes req body j.null []) ↔ (
            ((is_get req.path ≡ true) × In e get_nodes)
            ⊎ ((is_push req.path ≡ true) × In e push_nodes))
    unfolding endpoint_rule
    endpoint_nodes-In get_nodes push_nodes req body e = elim (Bool-cases (is_get req.path)) [
      | inl g ↦
          rw g
            (λ m. inl (refl, m), elim [ inl h ↦ h.1 | inr h ↦ cc (push-not-get req.path h.0, g) ])
      | inr g ↦ elim (Bool-cases (is_push req.path)) [
        | inl p ↦ rw (g, p) (λ m. inr (refl, m), elim [ inl h ↦ cc (h.0) | inr h ↦ h.1 ])
        | inr p ↦ rw (g, p) (λ m. absurd m, elim [ inl h ↦ cc (h.0) | inr h ↦ cc (h.0) ])
      ]
    ]

    -- A request matches exactly the nodes of its endpoint's list, read or push, that the health
    -- checker, where there is one, holds healthy.
    pub matched_iff :
        (get_nodes push_nodes : List (NodeEntry u)) (checker : Option (HealthChecker u))
        (req : RequestInfo) (body : Value) (e : NodeEntry u)
        → In e (matched get_nodes push_nodes checker req body) ↔ (
            (((is_get req.path ≡ true) × In e get_nodes)
              ⊎ ((is_push req.path ≡ true) × In e push_nodes))
            × (passes_health checker e ≡ true))
    unfolding find_matching_urls health_rule
    matched_iff get_nodes push_nodes none req body e =
        let i = endpoint_nodes-In get_nodes push_nodes req body e in
        (λ m. (i.0 m, refl), λ h. i.1 h.0)
    matched_iff get_nodes push_nodes (some h) req body e =
        let i = endpoint_nodes-In get_nodes push_nodes req body e in
        let k =
          filter_healthy_urls_iff u h (endpoint_rule j u get_nodes push_nodes req body j.null [])
            e in
        (λ m. let r = k.0 m in (i.0 r.0, r.1), λ r. k.1 (i.1 r.0, r.1))
