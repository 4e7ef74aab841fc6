-- ===== src/De/Transaction.antt =====
-- `Transaction` of antelope-firewall-lib/src/de.rs, its parts, and what serde's derived
-- implementations read of them: the fields in the order of their declarations.
use antelope_firewall.Prelude.{ℕ, ◌-◌, some, List, [], ◌∷◌, Text, codes, ok}
use antelope_firewall.De.{Parser, Outcome, return, ◌>>=◌, next_field}
use antelope_firewall.De.Visitor.{
  Visitor, no_methods, deserialize_u64, deserialize_struct, number_u8, number_u16, number_u32,
  number_varuint, parse_vec,
}
use antelope_firewall.De.Names.{name_to_string}

pub record Authorization : Type 0 where
  pub actor : Text
  pub permission : Text

pub record Action : Type 0 where
  pub account : Text
  pub name : Text
  pub authorization : List Authorization
  pub «data» : List ℕ

pub record Transaction : Type 0 where
  pub expiration : ℕ
  pub ref_block_num : ℕ
  pub ref_block_prefix : ℕ
  pub max_net_usage_words : ℕ
  pub max_cpu_usage_ms : ℕ
  pub delay_sec : ℕ
  pub ctx_free_actions : List Action
  pub actions : List Action

-- `NameVisitor`.
abbrev pub name_visitor : Visitor Text
name_visitor = record (no_methods {A = Text}) {
  visit_u64 = some λ value. ok (name_to_string value);
}

-- `Name`, by its text.
unfoldable pub parse_name : Parser Text
parse_name = deserialize_u64 name_visitor

-- The derived visitors, each asking for its fields in turn.
abbrev pub authorization_visitor : Visitor Authorization
authorization_visitor = record (no_methods {A = Authorization}) {
  visit_elements = some λ len. do
    actor ← next_field len parse_name
    permission ← next_field (len - 1) parse_name
    return (record { actor = actor; permission = permission });
}

unfoldable pub parse_authorization : Parser Authorization
parse_authorization =
    deserialize_struct (codes "Authorization") (codes "actor" ∷ codes "permission" ∷ [])
      authorization_visitor

abbrev pub action_visitor : Visitor Action
action_visitor = record (no_methods {A = Action}) {
  visit_elements = some λ len. do
    account ← next_field len parse_name
    name ← next_field (len - 1) parse_name
    authorization ← next_field (len - 2) (parse_vec parse_authorization)
    bytes ← next_field (len - 3) (parse_vec number_u8)
    return
        (record { account = account; name = name; authorization = authorization; «data» = bytes });
}

unfoldable pub parse_action : Parser Action
parse_action =
    deserialize_struct (codes "Action")
      (codes "account" ∷ codes "name" ∷ codes "authorization" ∷ codes "data" ∷ []) action_visitor

abbrev pub transaction_visitor : Visitor Transaction
transaction_visitor = record (no_methods {A = Transaction}) {
  visit_elements = some λ len. do
    expiration ← next_field len number_u32
    ref_block_num ← next_field (len - 1) number_u16
    ref_block_prefix ← next_field (len - 2) number_u32
    max_net_usage_words ← next_field (len - 3) number_varuint
    max_cpu_usage_ms ← next_field (len - 4) number_u8
    delay_sec ← next_field (len - 5) number_varuint
    ctx_free_actions ← next_field (len - 6) (parse_vec parse_action)
    actions ← next_field (len - 7) (parse_vec parse_action)
    return (record {
      expiration = expiration;
      ref_block_num = ref_block_num;
      ref_block_prefix = ref_block_prefix;
      max_net_usage_words = max_net_usage_words;
      max_cpu_usage_ms = max_cpu_usage_ms;
      delay_sec = delay_sec;
      ctx_free_actions = ctx_free_actions;
      actions = actions;
    });
}

abbrev pub transaction_fields : List Text
transaction_fields =
    codes "expiration"
    ∷ codes "ref_block_num"
    ∷ codes "ref_block_prefix"
    ∷ codes "max_net_usage_words"
    ∷ codes "max_cpu_usage_ms"
    ∷ codes "delay_sec"
    ∷ codes "ctx_free_actions"
    ∷ codes "actions"
    ∷ []

unfoldable pub parse_transaction : Parser Transaction
parse_transaction = deserialize_struct (codes "Transaction") transaction_fields transaction_visitor

-- `from_bytes`, for the one type it is used at: bytes behind the value are not looked at.
unfoldable pub from_bytes : List ℕ → Outcome Transaction
from_bytes s = parse_transaction s
