-- ===== src/Firewall/Blocking.antt =====
-- What a client packs is what the contract lists and the buckets read: from the packed bytes through
-- the decoder (antelope-firewall-lib/src/de.rs) to the filter and the answer of `handle_request`
-- (antelope-firewall-lib/src/firewall_builder.rs).
use mathlib.Core.List.{append-nil}
use antelope_firewall.Prelude.{
  ℕ, ◌≡◌, refl, ap, ◌∙◌, inl, inr, true, Option, some, List, [], ◌∷◌, ◌++◌, map, arith, Text, codes,
  ◌==◌, Option-cases,
}
use antelope_firewall.De.Transaction.{Authorization, Action, Transaction}
use antelope_firewall.De.Packing.{IsTransaction, pack_transaction}
use antelope_firewall.De.RoundTrip.{from_bytes-pack_transaction}
use antelope_firewall.Policy.{JsonApi, filter_map, accounts, actors}
use antelope_firewall.Firewall.Body.{unpack_trx}
use antelope_firewall.Firewall.Unpacking.{Carries, packed_trx-Carries}
use antelope_firewall.Firewall.Decoding.{
  flat_map, ValueApi, authorization_value, action_value, transaction_value, decode_trx,
}

-- Every element has the field that is asked for.
filter_map-map :
    {A B C : Type 0} (f : B → Option C) (g : A → B) (k : A → C) (xs : List A)
    → ((a : A) → f (g a) ≡ some (k a))
    → filter_map f (map g xs) ≡ map k xs
filter_map-map f g k [] h = refl
filter_map-map f g k (x ∷ xs) h = rw (h x, filter_map-map f g k xs h) refl

flat_map-map :
    {A B C : Type 0} (f : B → List C) (g : A → B) (k : A → List C) (xs : List A)
    → ((a : A) → f (g a) ≡ k a)
    → flat_map f (map g xs) ≡ flat_map k xs
flat_map-map f g k [] h = refl
flat_map-map f g k (x ∷ xs) h = rw (h x, flat_map-map f g k xs h) refl

filter_map-append :
    {A B : Type 0} (f : A → Option B) (xs ys : List A)
    → filter_map f (xs ++ ys) ≡ filter_map f xs ++ filter_map f ys
filter_map-append f [] ys = refl
filter_map-append f (x ∷ xs) ys = elim (Option-cases (f x)) [
  | inl e ↦ ground (arith, e, filter_map-append f xs ys)
  | inr (b, e) ↦ ground (arith, e, filter_map-append f xs ys)
]

filter_map_one :
    {A B : Type 0} (f : A → Option B) (a : A) (b : B)
    → f a ≡ some b
    → filter_map f (a ∷ []) ≡ b ∷ []
filter_map_one f a b e = ground (arith, e)

map-append : {A B : Type 0} (k : A → B) (xs ys : List A) → map k (xs ++ ys) ≡ map k xs ++ map k ys
map-append k [] ys = refl
map-append k (x ∷ xs) ys = ap (λ t. k x ∷ t) (map-append k xs ys)

filter_map-flat_map :
    {A B C D : Type 0} (f : B → Option C) (g : D → B) (k : D → C) (ds : A → List D) (xs : List A)
    → ((d : D) → f (g d) ≡ some (k d))
    → filter_map f (flat_map (λ a. map g (ds a)) xs) ≡ map k (flat_map ds xs)
filter_map-flat_map f g k ds [] h = refl
filter_map-flat_map f g k ds (x ∷ xs) h =
    rw
      (
        filter_map-append f (map g (ds x)) (flat_map (λ a. map g (ds a)) xs),
        filter_map-map f g k (ds x) h,
        filter_map-flat_map f g k ds xs h,
        map-append k (ds x) (flat_map ds xs),
      )
      refl

-- The accounts that the actions of a transaction call, and those that authorize them.
abbrev pub called : Transaction → List Text
called t = map (λ a. a.account) t.actions

abbrev pub authorizers : Transaction → List Text
authorizers t = map (λ a. a.actor) (flat_map (λ a. a.authorization) t.actions)

module _ (j : JsonApi) (s : ValueApi j) where
  open j use {Value, as_str, get_field, insert_field, is_object}

  get_actions :
      (t : Transaction)
      → get_field (codes "actions") (transaction_value j s t)
        ≡ some (s.array (map (action_value j s) t.actions))
  unfolding transaction_value ◌==◌
  get_actions t = s.get_field-object (codes "actions") _

  get_account :
      (a : Action) → get_field (codes "account") (action_value j s a) ≡ some (s.string a.account)
  unfolding action_value ◌==◌
  get_account a = s.get_field-object (codes "account") _

  get_authorization :
      (a : Action)
      → get_field (codes "authorization") (action_value j s a)
        ≡ some (s.array (map (authorization_value j s) a.authorization))
  unfolding action_value ◌==◌
  get_authorization a = s.get_field-object (codes "authorization") _

  get_actor :
      (a : Authorization)
      → get_field (codes "actor") (authorization_value j s a) ≡ some (s.string a.actor)
  unfolding authorization_value ◌==◌
  get_actor a = s.get_field-object (codes "actor") _

  -- The first three steps of both paths.
  walk-actions :
      (t : Transaction) (root : Value)
      → flat_map s.elements (
          filter_map (get_field (codes "actions")) (
            filter_map
              (get_field (codes "unpacked_trx"))
              (insert_field (codes "unpacked_trx") (transaction_value j s t) root ∷ [])))
        ≡ map (action_value j s) t.actions
  walk-actions t root =
      let actions = map (action_value j s) t.actions in
      ap (λ vs. flat_map s.elements (filter_map (get_field (codes "actions")) vs))
        (filter_map_one (get_field (codes "unpacked_trx")) _ (transaction_value j s t)
          (s.get_field-insert_field (codes "unpacked_trx") (transaction_value j s t) root))
      ∙ ap (flat_map s.elements) (
          filter_map_one (get_field (codes "actions")) (transaction_value j s t) (s.array actions)
            (get_actions t))
      ∙ ap (λ vs. vs ++ []) (s.elements-array actions)
      ∙ append-nil actions

  accounts-inserted :
      (t : Transaction) (root : Value)
      → accounts j (insert_field (codes "unpacked_trx") (transaction_value j s t) root) ≡ called t
  unfolding accounts
  accounts-inserted t root =
      ap (filter_map as_str) (s.select-accounts _)
      ∙ ap (λ vs. filter_map as_str (filter_map (get_field (codes "account")) vs))
          (walk-actions t root)
      ∙ ap (filter_map as_str) (
          filter_map-map (get_field (codes "account")) (action_value j s) (λ a. s.string a.account)
            t.actions get_account)
      ∙ filter_map-map as_str (λ a. s.string a.account) (λ a. a.account) t.actions
          (λ a. s.as_str-string a.account)

  actors-inserted :
      (t : Transaction) (root : Value)
      → actors j (insert_field (codes "unpacked_trx") (transaction_value j s t) root)
        ≡ authorizers t
  unfolding actors
  actors-inserted t root =
      let authorizations = λ (a : Action). a.authorization in
      ap (filter_map as_str) (s.select-actors _)
      ∙ ap
          (λ vs. filter_map as_str (
            filter_map (get_field (codes "actor"))
              (flat_map s.elements (filter_map (get_field (codes "authorization")) vs))))
          (walk-actions t root)
      ∙ ap
          (λ vs.
            filter_map as_str (filter_map (get_field (codes "actor")) (flat_map s.elements vs)))
          (filter_map-map (get_field (codes "authorization")) (action_value j s)
            (λ a. s.array (map (authorization_value j s) a.authorization)) t.actions
            get_authorization)
      ∙ ap (λ vs. filter_map as_str (filter_map (get_field (codes "actor")) vs))
          (flat_map-map s.elements (λ a. s.array (map (authorization_value j s) a.authorization))
            (λ a. map (authorization_value j s) a.authorization) t.actions
            (λ a. s.elements-array (map (authorization_value j s) a.authorization)))
      ∙ ap (filter_map as_str) (
          filter_map-flat_map (get_field (codes "actor")) (authorization_value j s)
            (λ a. s.string a.actor) authorizations t.actions get_actor)
      ∙ filter_map-map as_str (λ a. s.string a.actor) (λ a. a.actor)
          (flat_map authorizations t.actions) (λ a. s.as_str-string a.actor)

  module _ (hex_decode : Text → Option Text) where
    -- When the body is an object that packs a transaction, with any bytes behind it, in the object
    -- in its field transaction or, where it has no field transaction, in itself, then, whatever
    -- field unpacked_trx the client wrote, the accounts that the contract lists and the buckets
    -- read are those that the actions of that transaction call, and the actors those that authorize
    -- its actions, in their order.
    pub unpack_trx-pack_transaction :
        (root : Value) (t : Transaction) (rest : List ℕ)
        → IsTransaction t
        → is_object root ≡ true
        → Carries j hex_decode root (pack_transaction t ++ rest)
        → (accounts j (unpack_trx j hex_decode (decode_trx j s) root) ≡ called t)
          × (actors j (unpack_trx j hex_decode (decode_trx j s) root) ≡ authorizers t)
    unfolding unpack_trx decode_trx
    unpack_trx-pack_transaction root t rest v o p =
        let reads = from_bytes-pack_transaction t rest v in
        let q =
          packed_trx-Carries j hex_decode (decode_trx j s) root (pack_transaction t ++ rest) p in
        let same : unpack_trx j hex_decode (decode_trx j s) root
            ≡ insert_field (codes "unpacked_trx") (transaction_value j s t) root =
          ground (arith, o, q, reads) in
        (
          ap (accounts j) same ∙ accounts-inserted t root,
          ap (actors j) same ∙ actors-inserted t root,
        )
