-- ===== src/Firewall/Forwarding.antt =====
-- Which requests `handle_request` (antelope-firewall-lib/src/firewall_builder.rs) forwards, and what
-- a refused one leaves behind.
use antelope_firewall.Prelude.{
  ◌^◌, ◌-◌, ◌≤◌, ℕ, suc, ◌≡◌, refl, ◌≢◌, ◌↔◌, inl, inr, true, Option, none, some, List, [], ◌∷◌,
  arith, In, All, Bool-cases,
}
use antelope_firewall.Node.{UrlApi, NodeEntry}
use antelope_firewall.Filter.{Filter, find_matching_urls}
use antelope_firewall.Filter
use antelope_firewall.Policy.{JsonApi, RequestInfo}
use antelope_firewall.RateLimiter.{F32, RateLimiter, should_request_pass}
use antelope_firewall.Routing.{Order}
use antelope_firewall.Upstream.{HeaderApi, IpApi}
use antelope_firewall.Firewall.Loops.{run_filters}
use antelope_firewall.Firewall.Handler.{AntelopeFirewall, limit}

-- The size that a body may have, or the largest of u64 where it has none, is within the limit.
abbrev pub Fits : Option ℕ → ℕ → Type 0
Fits none limit = 2 ^ 64 - 1 ≤ limit
Fits (some upper) limit = upper ≤ limit

module _ {Request Value : Type 0} (null : Value) (request : Request) (value : Value) where
  -- The filters pass a request just when each of them does, by its own state.
  pub run_filters_iff :
      (fs : List (Filter Request Value))
      → ((run_filters null fs request value).1 ≡ true)
        ↔ All (λ f. (Filter.should_request_pass null f request value).1 ≡ true) fs
  unfolding run_filters
  run_filters_iff [] = (λ h. tt, λ h. refl)
  run_filters_iff (f ∷ fs) = elim (Bool-cases (Filter.should_request_pass null f request value).1) [
    | inl e ↦ (
      λ h. (e, (run_filters_iff fs).0 (ground (arith, e))),
      λ h. ground (arith, e, (run_filters_iff fs).1 h.1),
    )
    | inr e ↦ (λ h. ground (arith, e), λ h. cc (h.0, e))
  ]

  module _ {Response : Type 0} (f : F32) where
    -- Each limiter, called in its turn, lets the request pass.
    abbrev pub AllPass : List (RateLimiter Request Value Response) → (ℕ → ℕ → ℕ) → Type 0
    AllPass [] clock = Unit
    AllPass (l ∷ ls) clock =
        ((l' : RateLimiter Request Value Response) × (should_request_pass f null l request value
              (clock 0)
            ≡ some (l', true)))
        × AllPass ls (λ i. clock (suc i))

module _ (u : UrlApi) (h : HeaderApi) (i : IpApi) (j : JsonApi) (f : F32)
    (partial_cmp : f.Float → f.Float → Option Order) where
  open h use {Headers}
  open j use {Value, null}

  -- The request was matched, and the node chosen for it, if any, is one of the matched.
  abbrev pub Routed :
      AntelopeFirewall u h i j f → RequestInfo → Value → Option (NodeEntry u) → Type 0
  Routed fw req json chosen =
      (find_matching_urls null fw.rules req json ≢ [])
      × ((e : NodeEntry u) → chosen ≡ some e → In e (find_matching_urls null fw.rules req json))
