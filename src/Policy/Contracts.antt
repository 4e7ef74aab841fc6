-- ===== src/Policy/Contracts.antt =====
-- What the configured filter of antelope-firewall-lib/src/config.rs lets through.
use antelope_firewall.Prelude.{
  ◌≡◌, refl, ap, ◌∙◌, ◌≢◌, ◌↔◌, ◌⊎◌, inl, inr, Bool, true, false, List, [], ◌∷◌, arith, Text, any,
  all, In, All, &&-true, contains, All-of-In, All-mono,
}
use antelope_firewall.Config.Endpoints.{is_get, is_push}
use antelope_firewall.Policy.{JsonApi, RequestInfo, accounts, filter_test}

all-In : (p : Text → Bool) (xs : List Text) → all p xs ≡ true → (x : Text) → In x xs → p x ≡ true
all-In p [] h x m = elim m [ ]
all-In p (y ∷ ys) h x (inl e) = ap p e ∙ (&&-true (p y) (all p ys) h).0
all-In p (y ∷ ys) h x (inr m) = all-In p ys (&&-true (p y) (all p ys) h).1 x m

any-In : (p : Text → Bool) (xs : List Text) → any p xs ≡ false → (x : Text) → In x xs → p x ≡ false
any-In p [] h x m = elim m [ ]
any-In p (y ∷ ys) h x (inl e) = ap p e ∙ ground arith
any-In p (y ∷ ys) h x (inr m) = any-In p ys (ground arith) x m

all_of_All : (p : Text → Bool) (xs : List Text) → All (λ x. p x ≡ true) xs → all p xs ≡ true
all_of_All p [] h = refl
all_of_All p (x ∷ xs) h = ground (arith, h.0, all_of_All p xs h.1)

any_of_All : (p : Text → Bool) (xs : List Text) → All (λ x. p x ≡ false) xs → any p xs ≡ false
any_of_All p [] h = refl
any_of_All p (x ∷ xs) h = ground (arith, h.0, any_of_All p xs h.1)

module _ (j : JsonApi) where
  open j use {Value}

  -- What the lists ask of a contract: it is not blocked and, where nothing is blocked and an allow
  -- list is given, it is on the allow list.
  abbrev pub Permits : List Text → List Text → Text → Type 0
  Permits blocked allow account =
      (contains blocked account ≡ false)
      × ((blocked ≢ []) ⊎ (allow ≡ []) ⊎ (contains allow account ≡ true))

  pub filter_test_sound :
      (blocked_ips blocked allow : List Text) (req : RequestInfo) (body json : Value)
      → filter_test j blocked_ips blocked allow req body json ≡ true
      → ((is_push req.path ≡ true) ⊎ (is_get req.path ≡ true))
        × (contains blocked_ips req.ip ≡ false)
        × All
            (λ account.
              (contains blocked account ≡ false)
              × ((blocked ≢ []) ⊎ (allow ≡ []) ⊎ (contains allow account ≡ true)))
            (accounts j body)
  unfolding filter_test
  filter_test_sound blocked_ips [] [] req body json h =
      (ground arith, ground arith, All-of-In _ (accounts j body) (λ a m. (refl, inr (inl refl))))
  filter_test_sound blocked_ips [] (a ∷ as') req body json h = (
    ground arith,
    ground arith,
    All-of-In _ (accounts j body)
        λ x m. (refl, inr (inr (all-In (contains (a ∷ as')) (accounts j body) (ground arith) x m))),
  )
  filter_test_sound blocked_ips (b ∷ bs) allow req body json h = (
    ground arith,
    ground arith,
    All-of-In _ (accounts j body)
        λ x m. (any-In (contains (b ∷ bs)) (accounts j body) (ground arith) x m, inl (λ e. cc)),
  )

  filter_test_complete :
      (blocked_ips blocked allow : List Text) (req : RequestInfo) (body json : Value)
      → (is_push req.path ≡ true) ⊎ (is_get req.path ≡ true)
      → contains blocked_ips req.ip ≡ false
      → All (Permits blocked allow) (accounts j body)
      → filter_test j blocked_ips blocked allow req body json ≡ true
  unfolding filter_test
  filter_test_complete blocked_ips [] [] req body json p i h = ground (arith, p, i)
  filter_test_complete blocked_ips [] (a ∷ as') req body json p i h =
      let listed =
        all_of_All (contains (a ∷ as')) (accounts j body)
          (All-mono _ _ (accounts j body) named h) in
      ground (arith, p, i, listed)
    where
      named : (x : Text) → Permits [] (a ∷ as') x → contains (a ∷ as') x ≡ true
      named x (_, inl ne) = absurd (ne refl)
      named x (_, inr (inl e)) = ground (arith, e)
      named x (_, inr (inr t)) = t
  filter_test_complete blocked_ips (b ∷ bs) allow req body json p i h =
      let listed =
        any_of_All (contains (b ∷ bs)) (accounts j body)
          (All-mono _ _ (accounts j body) (λ x k. k.0) h) in
      ground (arith, p, i, listed)

  -- The filter passes a request just when it goes to a listed endpoint, comes from no blocked
  -- address, and each contract that the decoded actions of its body call is not blocked and, where
  -- nothing is blocked and an allow list is given, is on the allow list. So a body that yields no
  -- contract passes the two lists whatever they hold.
  pub filter_test_iff :
      (blocked_ips blocked allow : List Text) (req : RequestInfo) (body json : Value)
      → (filter_test j blocked_ips blocked allow req body json ≡ true) ↔ (
          ((is_push req.path ≡ true) ⊎ (is_get req.path ≡ true))
          × (contains blocked_ips req.ip ≡ false)
          × All (Permits blocked allow) (accounts j body))
  filter_test_iff blocked_ips blocked allow req body json = (
    filter_test_sound blocked_ips blocked allow req body json,
    λ h. filter_test_complete blocked_ips blocked allow req body json h.0 h.1 h.2,
  )

  -- The contract lists bind only what was decoded: a push from an address that is not blocked,
  -- whose body yields no account, passes them whatever they hold.
  pub filter_test-undecoded :
      (blocked_ips blocked allow : List Text) (req : RequestInfo) (body json : Value)
      → is_push req.path ≡ true
      → contains blocked_ips req.ip ≡ false
      → accounts j body ≡ []
      → filter_test j blocked_ips blocked allow req body json ≡ true
  unfolding filter_test
  filter_test-undecoded blocked_ips [] [] req body json p i e = ground arith
  filter_test-undecoded blocked_ips [] (a ∷ as') req body json p i e = ground arith
  filter_test-undecoded blocked_ips (b ∷ bs) allow req body json p i e = ground arith
