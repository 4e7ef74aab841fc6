-- ===== src/Node.antt =====
-- `NodeEntry` of antelope-firewall-lib/src/lib.rs, and `same_origin` of
-- antelope-firewall-lib/src/firewall_builder.rs. The `Url` type belongs to the crate reqwest: its
-- operations are the parameter `UrlApi`.
use antelope_firewall.Prelude.{
  ℕ, ◌≡◌, refl, ap, ◌↔◌, Bool, true, false, ◌&&◌, Option, none, some, arith, Text, ◌==◌,
  text_eq_iff, eq_of_text, eqb,
}

pub record UrlApi : Type 1 where
  pub Url : Type 0
  pub url_eq : Url → Url → Bool
  pub parse : Text → Option Url
  pub scheme : Url → Text
  pub host_str : Url → Option Text
  pub port_or_known_default : Url → Option ℕ
  pub path : Url → Text
  pub query : Url → Option Text
  pub set_path : Url → Text → Url
  pub set_query : Url → Option Text → Url
  -- `==` on urls decides their equality.
  pub url_eq_iff : (a b : Url) → (url_eq a b ≡ true) ↔ (a ≡ b)
  -- Each of the setters changes its own part of the url.
  pub query-set_query : (a : Url) → query (set_query a none) ≡ none
  pub path-set_query :
      (a : Url) (host : Text) (q : Option Text)
      → host_str a ≡ some host
      → path (set_query a q) ≡ path a
  pub scheme-set_path : (a : Url) (p : Text) → scheme (set_path a p) ≡ scheme a
  pub host_str-set_path : (a : Url) (p : Text) → host_str (set_path a p) ≡ host_str a
  pub port-set_path :
      (a : Url) (p : Text) → port_or_known_default (set_path a p) ≡ port_or_known_default a
  pub scheme-set_query : (a : Url) (q : Option Text) → scheme (set_query a q) ≡ scheme a
  pub host_str-set_query : (a : Url) (q : Option Text) → host_str (set_query a q) ≡ host_str a
  pub port-set_query :
      (a : Url) (q : Option Text) → port_or_known_default (set_query a q) ≡ port_or_known_default a

abbrev pub option_eq {ℓ} : {A : Type ℓ} → (A → A → Bool) → Option A → Option A → Bool
option_eq eq none none = true
option_eq eq (some a) (some b) = eq a b
option_eq eq _ _ = false

pub text_option_eq : (a b : Option Text) → (option_eq ◌==◌ a b ≡ true) ↔ (a ≡ b)
text_option_eq none none = (λ h. refl, λ h. refl)
text_option_eq (some a) (some b) =
    (λ h. ap some (eq_of_text a b h), λ h. (text_eq_iff a b).1 (ground arith))
text_option_eq none (some b) = (λ h. cc, λ h. cc)
text_option_eq (some a) none = (λ h. cc, λ h. cc)

module _ (u : UrlApi) where
  open u use {Url, url_eq, scheme, host_str, port_or_known_default}

  pub record NodeEntry : Type 0 where
    pub url : Url
    pub weight : ℕ
    pub name : Text
    pub pinnable : Bool

  -- `PartialEq for NodeEntry`: two entries are the same node when they carry the same URL.
  abbrev pub node_eq : NodeEntry → NodeEntry → Bool
  node_eq a b = url_eq a.url b.url

  -- Two urls address the same node when the scheme, the host and the port match.
  unfoldable pub same_origin : Url → Url → Bool
  same_origin chosen answered =
      (scheme chosen == scheme answered)
      && option_eq ◌==◌ (host_str chosen) (host_str answered)
      && option_eq eqb (port_or_known_default chosen) (port_or_known_default answered)

  abbrev pub Origin : Type 0
  Origin = Text × Option Text × Option ℕ

  abbrev pub origin : Url → Origin
  origin url = (scheme url, host_str url, port_or_known_default url)

  -- `same_origin` holds of two urls just when their schemes, hosts and ports are equal.
  pub same_origin_iff : (a b : Url) → (same_origin a b ≡ true) ↔ (origin a ≡ origin b)
  unfolding same_origin
  same_origin_iff a b = (
    λ h.
        ground (arith, text_eq_iff (scheme a) (scheme b), text_option_eq (host_str a) (host_str b)),
    λ h. ground (
      arith,
      text_eq_iff (scheme a) (scheme b),
      text_option_eq (host_str a) (host_str b),
      ap (λ (o : Origin). o.0) h,
      ap (λ (o : Origin). o.1) h,
      ap (λ (o : Origin). o.2) h,
    ),
  )
