-- ===== src/Health/History.antt =====
-- The health of a node is the outcome of its last check
-- (antelope-firewall-lib/src/healthcheck.rs).
use antelope_firewall.Prelude.{
  ℕ, ◌≡◌, refl, ap, ◌∙◌, ◌↔◌, Bool, true, Option, some, List, [], ◌∷◌, arith, Text, if◌then◌else◌,
  any, In, In-keep, keep-In,
}
use antelope_firewall.Node.{UrlApi, NodeEntry}
use antelope_firewall.Health.{
  NodeAnswer, categorize_response_healthy, is_ok, HealthMap, get_health, insert_health,
  HealthChecker, mark_all, start, check_node, is_healthy, filter_healthy_urls,
}

module _ (u : UrlApi) where
  open u use {Url, url_eq, url_eq_iff}

  abbrev pub contains_url : Url → List Url → Bool
  contains_url url urls = any (λ v. url_eq v url) urls

  url_refl : (a : Url) → url_eq a a ≡ true
  url_refl a = (url_eq_iff a a).1 refl

  get-insert_health :
      (a b : Url) (h : Bool) (m : HealthMap u)
      → get_health u b (insert_health u a h m) ≡ (if url_eq a b then some h else get_health u b m)
  unfolding get_health insert_health
  get-insert_health a b h [] = refl
  get-insert_health a b h ((v, c) ∷ m) = ground (
    arith,
    url_eq_iff a b,
    url_eq_iff v a,
    url_eq_iff v b,
    get-insert_health a b h m,
    ap (λ t. url_eq t b),
    url_refl b,
  )

  get-mark_all :
      (url : Url) (urls : List Url) (m : HealthMap u)
      → get_health u url (mark_all u urls m)
        ≡ (if contains_url url urls then some true else get_health u url m)
  unfolding mark_all
  get-mark_all url [] m = refl
  get-mark_all url (v ∷ urls) m =
      ground
        (arith, get-mark_all url urls (insert_health u v true m), get-insert_health v url true m)

  -- A check of a node at a time, with what it answered.
  pub record Check : Type 0 where
    pub url : Url
    pub answer : NodeAnswer
    pub now : ℕ

  unfoldable pub run_checks : (Text → Option ℕ) → HealthChecker u → List Check → HealthChecker u
  run_checks parse_time c [] = c
  run_checks parse_time c (k ∷ ks) =
      run_checks parse_time (check_node u parse_time c k.url k.answer k.now) ks

  -- What the last check of a url found; `before` where there was none.
  abbrev pub last_outcome : (Text → Option ℕ) → ℕ → Url → Bool → List Check → Bool
  last_outcome parse_time grace url before [] = before
  last_outcome parse_time grace url before (k ∷ ks) =
      last_outcome parse_time grace url
        (if url_eq k.url url
          then is_ok (categorize_response_healthy parse_time k.answer k.now grace)
          else before)
        ks

  run_checks-outcome :
      (parse_time : Text → Option ℕ) (c : HealthChecker u) (url : Url) (ks : List Check)
      → is_healthy u (run_checks parse_time c ks) url
        ≡ last_outcome parse_time c.grace_period url (is_healthy u c url) ks
  unfolding run_checks check_node
  run_checks-outcome parse_time c url [] = refl
  run_checks-outcome parse_time c url (k ∷ ks) =
      run_checks-outcome parse_time (check_node u parse_time c k.url k.answer k.now) url ks
      ∙ ap (λ b. last_outcome parse_time c.grace_period url b ks) (one_check k)
    where
      one_check :
          (k : Check)
          → is_healthy u (check_node u parse_time c k.url k.answer k.now) url ≡ (
              if url_eq k.url url
              then is_ok (categorize_response_healthy parse_time k.answer k.now c.grace_period)
              else is_healthy u c url)
      one_check k =
          unfold is_healthy check_node in
          ground (
            arith,
            get-insert_health k.url url
                (is_ok (categorize_response_healthy parse_time k.answer k.now c.grace_period))
                c.healthy_map,
          )

  is_healthy-start :
      (nodes : List Url) (grace : ℕ) (url : Url)
      → is_healthy u (start u nodes grace) url ≡ contains_url url nodes
  unfolding is_healthy start get_health
  is_healthy-start nodes grace url = ground (arith, get-mark_all url nodes [])

  -- After any checks, in any order, a url counts as healthy by its own last check alone; before its
  -- first check it counts as healthy just when it is configured.
  pub is_healthy-last :
      (parse_time : Text → Option ℕ) (nodes : List Url) (grace : ℕ) (url : Url) (ks : List Check)
      → is_healthy u (run_checks parse_time (start u nodes grace) ks) url
        ≡ last_outcome parse_time grace url (contains_url url nodes) ks
  is_healthy-last parse_time nodes grace url ks =
      run_checks-outcome parse_time (start u nodes grace) url ks
      ∙ ap (λ b. last_outcome parse_time (start u nodes grace).grace_period url b ks)
          (is_healthy-start nodes grace url)
      ∙ grace_kept
    where
      grace_kept :
          last_outcome parse_time (start u nodes grace).grace_period url (contains_url url nodes) ks
          ≡ last_outcome parse_time grace url (contains_url url nodes) ks
      grace_kept = unfold start in refl

  -- The filter keeps exactly the healthy nodes.
  pub filter_healthy_urls_iff :
      (c : HealthChecker u) (nodes : List (NodeEntry u)) (e : NodeEntry u)
      → In e (filter_healthy_urls u c nodes) ↔ (In e nodes × (is_healthy u c e.url ≡ true))
  unfolding filter_healthy_urls is_healthy
  filter_healthy_urls_iff c nodes e = (λ m. keep-In _ nodes m, λ h. In-keep _ nodes h.0 h.1)
