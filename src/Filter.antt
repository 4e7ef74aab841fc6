-- ===== src/Filter.antt =====
-- `Filter` of antelope-firewall-lib/src/filter.rs and `MatchingEngine` of
-- antelope-firewall-lib/src/matching_engine.rs. Their closures are functions of the request.
use antelope_firewall.Prelude.{
  ℕ, ◌+◌, ◌≡◌, ◌↔◌, inl, inr, Bool, true, false, Option, none, some, List, [], ◌∷◌, arith, Text,
  if◌then◌else◌, Option-cases,
}
use antelope_firewall.Cache.{JsonDataCache, handle_cache_option}

pub record Filter (Request Value : Type 0) : Type 0 where
  pub name : Text
  pub test : Request → Value → Value → Bool
  pub cache : Option (JsonDataCache Value)
  pub processed : ℕ
  pub denied : ℕ
  pub accepted : ℕ

unfoldable pub new :
    {Request Value : Type 0}
    → Text
    → (Request → Value → Value → Bool)
    → Option (JsonDataCache Value)
    → Filter Request Value
new name test cache = record {
  name = name;
  test = test;
  cache = cache;
  processed = 0;
  denied = 0;
  accepted = 0;
}

module _ {Request Value : Type 0} (null : Value) where
  -- Checks if the request should be filtered out.
  unfoldable pub should_request_pass :
      Filter Request Value → Request → Value → Filter Request Value × Bool
  should_request_pass f request value =
      let counted = record f { processed = f.processed + 1 } in
      elim (handle_cache_option null f.cache) [
        | none ↦ (counted, false)
        | some json ↦
            let retval = f.test request value json in
            (
              record counted {
                accepted = if retval then f.accepted + 1 else f.accepted;
                denied = if retval then f.denied else f.denied + 1;
              },
              retval,
            )
      ]

  -- A filter passes a request just when its cache gives a value and its test accepts the request
  -- with that value.
  pub passes_filter_iff :
      (f : Filter Request Value) (request : Request) (value : Value)
      → ((should_request_pass f request value).1 ≡ true) ↔ (
          (json : Value) × (handle_cache_option null f.cache ≡ some json)
          × (f.test request value json ≡ true))
  unfolding should_request_pass
  passes_filter_iff f request value = (
    λ h. elim (Option-cases (handle_cache_option null f.cache)) [
      | inl e ↦ ground (arith, e)
      | inr (json, e) ↦ (json, e, ground (arith, e))
    ],
    λ h. ground (arith, h.1, h.2),
  )

-- A matching rule sees the request, the body and the nodes that the rules before it matched.
abbrev pub Rule : Type 0 → Type 0 → Type 0 → Type 0
Rule Request Value Node = Request → Value → Value → List Node → List Node

module _ {Request Value Node : Type 0} (null : Value) where
  abbrev pub apply_rules : List (Rule Request Value Node) → Request → Value → List Node → List Node
  apply_rules [] request body urls = urls
  apply_rules (rule ∷ rules) request body urls =
      apply_rules rules request body (rule request body null urls)

  unfoldable pub find_matching_urls : List (Rule Request Value Node) → Request → Value → List Node
  find_matching_urls rules request body = apply_rules rules request body []
