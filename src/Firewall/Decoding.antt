-- ===== src/Firewall/Decoding.antt =====
-- The JSON value of a decoded transaction, `serde_json::to_value` in `handle_request`
-- (antelope-firewall-lib/src/firewall_builder.rs) with the derived `Serialize` of `Transaction` and
-- the written ones of `Name` and `Varuint` (antelope-firewall-lib/src/de.rs), and what the filter
-- reads of it.
use antelope_firewall.Prelude.{
  ℕ, ◌≡◌, Option, none, some, List, [], ◌∷◌, ◌++◌, map, Text, codes, ◌==◌, if◌then◌else◌,
}
use antelope_firewall.De.{parsed, failed, panicked}
use antelope_firewall.De.Transaction.{Authorization, Action, Transaction, from_bytes}
use antelope_firewall.Policy.{JsonApi, filter_map}

-- The steps of a path of jsonpath: a field of an object, or every element of an array.
pub data Step : Type 0 where
  member : Text → Step
  every : Step

abbrev pub lookup : {A : Type 0} → Text → List (Text × A) → Option A
lookup name [] = none
lookup name ((n, a) ∷ fields) = if n == name then some a else lookup name fields

abbrev pub flat_map : {A B : Type 0} → (A → List B) → List A → List B
flat_map f [] = []
flat_map f (a ∷ as') = f a ++ flat_map f as'

-- What a path leads to, by the values that its first steps lead to.
abbrev pub walk :
    {V : Type 0} (get_field : Text → V → Option V) (elements : V → List V)
    → List Step
    → List V
    → List V
walk get_field elements [] vs = vs
walk get_field elements (member name ∷ steps) vs =
    walk get_field elements steps (filter_map (get_field name) vs)
walk get_field elements (every ∷ steps) vs = walk get_field elements steps (flat_map elements vs)

abbrev pub account_steps : List Step
account_steps =
    member (codes "unpacked_trx") ∷ member (codes "actions") ∷ every ∷ member (codes "account") ∷ []

abbrev pub actor_steps : List Step
actor_steps =
    member (codes "unpacked_trx")
    ∷ member (codes "actions")
    ∷ every
    ∷ member (codes "authorization")
    ∷ every
    ∷ member (codes "actor")
    ∷ []

-- The values of serde_json: how they are made, and what reading them gives. The two paths that the
-- program uses lead where their steps lead.
pub record ValueApi (j : JsonApi) : Type 1 where
  pub number : ℕ → j.Value
  pub string : Text → j.Value
  pub array : List j.Value → j.Value
  pub object : List (Text × j.Value) → j.Value
  pub elements : j.Value → List j.Value
  pub as_str-string : (t : Text) → j.as_str (string t) ≡ some t
  pub elements-array : (vs : List j.Value) → elements (array vs) ≡ vs
  pub get_field-object :
      (name : Text) (fields : List (Text × j.Value))
      → j.get_field name (object fields) ≡ lookup name fields
  pub get_field-insert_field :
      (name : Text) (v root : j.Value) → j.get_field name (j.insert_field name v root) ≡ some v
  pub select-accounts :
      (v : j.Value)
      → j.select (codes "$.unpacked_trx.actions.*.account") v
        ≡ walk j.get_field elements account_steps (v ∷ [])
  pub select-actors :
      (v : j.Value)
      → j.select (codes "$.unpacked_trx.actions.*.authorization.*.actor") v
        ≡ walk j.get_field elements actor_steps (v ∷ [])

module _ (j : JsonApi) (s : ValueApi j) where
  open j use {Value, as_str, get_field}
  open s use {number, string, array, object, elements}

  -- The `Serialize` of the types, the fields in the order of their declarations.
  unfoldable pub authorization_value : Authorization → Value
  authorization_value a =
      object ((codes "actor", string a.actor) ∷ (codes "permission", string a.permission) ∷ [])

  unfoldable pub action_value : Action → Value
  action_value a = object (
      (codes "account", string a.account)
      ∷ (codes "name", string a.name)
      ∷ (codes "authorization", array (map authorization_value a.authorization))
      ∷ (codes "data", array (map number a.«data»))
      ∷ [])

  unfoldable pub transaction_value : Transaction → Value
  transaction_value t = object (
      (codes "expiration", number t.expiration)
      ∷ (codes "ref_block_num", number t.ref_block_num)
      ∷ (codes "ref_block_prefix", number t.ref_block_prefix)
      ∷ (codes "max_net_usage_words", number t.max_net_usage_words)
      ∷ (codes "max_cpu_usage_ms", number t.max_cpu_usage_ms)
      ∷ (codes "delay_sec", number t.delay_sec)
      ∷ (codes "ctx_free_actions", array (map action_value t.ctx_free_actions))
      ∷ (codes "actions", array (map action_value t.actions))
      ∷ [])

  -- `from_bytes(..).ok().and_then(|trx| to_value(&trx).ok())`; on bytes the decoder does not panic.
  unfoldable pub decode_trx : Text → Option Value
  decode_trx bytes = elim (from_bytes bytes) [
    | parsed t rest ↦ some (transaction_value t)
    | failed e ↦ none
    | panicked ↦ none
  ]
