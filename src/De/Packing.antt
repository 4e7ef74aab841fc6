-- ===== src/De/Packing.antt =====
-- The packed form of a transaction, as the chain writes it: the reference that the reader of
-- antelope-firewall-lib/src/de.rs is held against.
use antelope_firewall.Prelude.{
  ℕ, zero, suc, ◌+◌, ◌/◌, ◌%◌, ◌^◌, ◌<◌, ◌≡◌, List, [], ◌∷◌, ◌++◌, Text, ltb, if◌then◌else◌, length,
  All,
}
use antelope_firewall.De.Names.{to_le_bytes, name_to_string}
use antelope_firewall.De.Names.Value.{name_value}
use antelope_firewall.De.Transaction.{Authorization, Action, Transaction}

-- Groups of seven bits, the lowest first, all but the last with the top bit set: at most `k` and
-- one more.
unfoldable pub pack_groups : ℕ → ℕ → List ℕ
pack_groups zero v = v ∷ []
pack_groups (suc k) v =
    let rest = pack_groups k (v / 128) in if ltb v 128 then v ∷ [] else (v % 128 + 128) ∷ rest

abbrev pub pack_varuint : ℕ → List ℕ
pack_varuint v = pack_groups 4 v

abbrev pub pack_all {ℓ} : {A : Type ℓ} → (A → List ℕ) → List A → List ℕ
pack_all pack [] = []
pack_all pack (a ∷ as') = pack a ++ pack_all pack as'

abbrev pub pack_list : {A : Type 0} → (A → List ℕ) → List A → List ℕ
pack_list pack xs = pack_varuint (length xs) ++ pack_all pack xs

abbrev pub pack_name : Text → List ℕ
pack_name name = to_le_bytes 8 (name_value name)

abbrev pub pack_byte : ℕ → List ℕ
pack_byte b = b ∷ []

unfoldable pub pack_authorization : Authorization → List ℕ
pack_authorization a = pack_name a.actor ++ pack_name a.permission

unfoldable pub pack_action : Action → List ℕ
pack_action a =
    pack_name a.account
    ++ (pack_name a.name
        ++ (pack_list pack_authorization a.authorization ++ pack_list pack_byte a.«data»))

unfoldable pub pack_transaction : Transaction → List ℕ
pack_transaction t =
    to_le_bytes 4 t.expiration
    ++ (to_le_bytes 2 t.ref_block_num
        ++ (to_le_bytes 4 t.ref_block_prefix
            ++ (pack_varuint t.max_net_usage_words
                ++ (pack_byte t.max_cpu_usage_ms
                    ++ (pack_varuint t.delay_sec
                        ++ (pack_list pack_action t.ctx_free_actions
                            ++ pack_list pack_action t.actions))))))

abbrev pub IsU32 : ℕ → Type 0
IsU32 n = n < 2 ^ 32

-- The text of some u64.
abbrev pub IsName : Text → Type 0
IsName name = (n : ℕ) × (n < 2 ^ 64) × (name ≡ name_to_string n)

abbrev pub IsByte : ℕ → Type 0
IsByte b = b < 256

abbrev pub IsList : {A : Type 0} → (A → Type 0) → List A → Type 0
IsList P xs = IsU32 (length xs) × All P xs

pub record IsAuthorization (a : Authorization) : Type 0 where
  pub actor : IsName a.actor
  pub permission : IsName a.permission

pub record IsAction (a : Action) : Type 0 where
  pub account : IsName a.account
  pub name : IsName a.name
  pub authorization : IsList IsAuthorization a.authorization
  pub «data» : IsList IsByte a.«data»

pub record IsTransaction (t : Transaction) : Type 0 where
  pub expiration : IsU32 t.expiration
  pub ref_block_num : t.ref_block_num < 2 ^ 16
  pub ref_block_prefix : IsU32 t.ref_block_prefix
  pub max_net_usage_words : IsU32 t.max_net_usage_words
  pub max_cpu_usage_ms : IsByte t.max_cpu_usage_ms
  pub delay_sec : IsU32 t.delay_sec
  pub ctx_free_actions : IsList IsAction t.ctx_free_actions
  pub actions : IsList IsAction t.actions
