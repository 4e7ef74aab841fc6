-- ===== src/De/RoundTrip.antt =====
-- The reader of antelope-firewall-lib/src/de.rs reads back what the chain packs.
pub mod Reading
pub mod Varuint
use antelope_firewall.Prelude.{
  ℕ, ◌+◌, ◌-◌, ◌^◌, ◌<◌, ◌≡◌, refl, sym, ap, ◌∙◌, List, ◌++◌, arith, Text, length, All, All-mono,
}
use antelope_firewall.De.{
  Parser, parsed, next_byte, read_le, parse_u8, parse_u16, parse_u32, parse_u64, parse_varuint,
  visit_seq, next_field,
}
use antelope_firewall.De.Visitor.{
  deserialize_u8, deserialize_u16, deserialize_u32, deserialize_u64, deserialize_char,
  deserialize_seq, deserialize_struct, number_u8, number_u16, number_u32, number_varuint, parse_vec,
}
use antelope_firewall.De.Names.{to_le_bytes, name_to_string}
use antelope_firewall.De.Names.Value.{name_value, name_value-name_to_string}
use antelope_firewall.De.Transaction.{
  Authorization, Action, Transaction, parse_name, parse_authorization, parse_action,
  parse_transaction, from_bytes,
}
use antelope_firewall.De.Packing.{
  pack_varuint, pack_all, pack_list, pack_name, pack_byte, pack_authorization, pack_action,
  pack_transaction, IsU32, IsName, IsByte, IsList, IsAuthorization, IsAction, IsTransaction,
}
use antelope_firewall.De.RoundTrip.Reading.{
  Reads, Reads-bind, Reads-return, Reads-next_field, Reads-visit_seq, Reads-read_le,
}
use antelope_firewall.De.RoundTrip.Varuint.{Reads-varuint}

Reads-seq :
    {A : Type 0} (p : Parser A) (pack : A → List ℕ) (as' : List A)
    → IsU32 (length as')
    → All (λ a. Reads p (pack a) a) as'
    → Reads (parse_vec p) (pack_list pack as') as'
unfolding parse_vec deserialize_seq
Reads-seq p pack as' small h =
    Reads-bind parse_varuint (visit_seq p) (pack_varuint (length as')) (pack_all pack as')
      (Reads-varuint (length as') small) (Reads-visit_seq p pack as' h)

Reads-parse_name : (name : Text) → IsName name → Reads parse_name (pack_name name) name
unfolding parse_name deserialize_u64 parse_u64
Reads-parse_name name (n, lt, e) rest =
    let v : name_value name ≡ n = ap name_value e ∙ name_value-name_to_string n lt in
    Reads-return (read_le 8 8) name_to_string (pack_name name)
      (Reads-read_le 8 (name_value name) (omega (arith, v))) rest
    ∙ ap (λ (t : Text). parsed t rest) (ap name_to_string v ∙ sym e)

-- The numbers, behind their visitors.
Reads-number_u8 : (b : ℕ) → Reads number_u8 (pack_byte b) b
unfolding number_u8 deserialize_u8 parse_u8 next_byte
Reads-number_u8 b rest = refl

Reads-number_u16 : (n : ℕ) → n < 2 ^ 16 → Reads number_u16 (to_le_bytes 2 n) n
unfolding number_u16 deserialize_u16 parse_u16
Reads-number_u16 n lt = Reads-return (read_le 2 2) (λ k. k) (to_le_bytes 2 n) (Reads-read_le 2 n lt)

Reads-number_u32 : (n : ℕ) → IsU32 n → Reads number_u32 (to_le_bytes 4 n) n
unfolding number_u32 deserialize_u32 parse_u32
Reads-number_u32 n lt = Reads-return (read_le 4 4) (λ k. k) (to_le_bytes 4 n) (Reads-read_le 4 n lt)

Reads-number_varuint : (n : ℕ) → IsU32 n → Reads number_varuint (pack_varuint n) n
unfolding number_varuint deserialize_char
Reads-number_varuint n lt =
    Reads-return parse_varuint (λ k. k) (pack_varuint n) (Reads-varuint n lt)

Reads-parse_authorization :
    (a : Authorization) → IsAuthorization a → Reads parse_authorization (pack_authorization a) a
unfolding parse_authorization deserialize_struct pack_authorization
Reads-parse_authorization a v =
    Reads-bind (next_field 2 parse_name) _ (pack_name a.actor) (pack_name a.permission)
      (Reads-next_field 1 parse_name (pack_name a.actor) (Reads-parse_name a.actor v.actor))
      (Reads-return (next_field 1 parse_name) _ (pack_name a.permission) (
        Reads-next_field 0 parse_name (pack_name a.permission)
          (Reads-parse_name a.permission v.permission)))

All-Reads :
    {A : Type 0} (p : Parser A) (pack : A → List ℕ) (P : A → Type 0)
    → ((a : A) → P a → Reads p (pack a) a)
    → (as' : List A) → IsList P as'
    → Reads (parse_vec p) (pack_list pack as') as'
All-Reads p pack P each as' (small, h) =
    Reads-seq p pack as' small (All-mono P (λ a. Reads p (pack a) a) as' each h)

Reads-parse_action : (a : Action) → IsAction a → Reads parse_action (pack_action a) a
unfolding parse_action deserialize_struct pack_action
Reads-parse_action a v =
    Reads-bind (next_field 4 parse_name) _ (pack_name a.account) _
      (Reads-next_field 3 parse_name (pack_name a.account) (Reads-parse_name a.account v.account))
      (Reads-bind (next_field 3 parse_name) _ (pack_name a.name) _
        (Reads-next_field 2 parse_name (pack_name a.name) (Reads-parse_name a.name v.name))
        (Reads-bind (next_field 2 (parse_vec parse_authorization)) _
          (pack_list pack_authorization a.authorization) _
          (Reads-next_field 1 (parse_vec parse_authorization)
            (pack_list pack_authorization a.authorization)
            (All-Reads parse_authorization pack_authorization IsAuthorization
              Reads-parse_authorization a.authorization v.authorization))
          (Reads-return (next_field 1 (parse_vec number_u8)) _ (pack_list pack_byte a.«data») (
            Reads-next_field 0 (parse_vec number_u8) (pack_list pack_byte a.«data») (
              All-Reads number_u8 pack_byte IsByte (λ b h. Reads-number_u8 b) a.«data» v.«data»)))))

Reads-parse_transaction :
    (t : Transaction) → IsTransaction t → Reads parse_transaction (pack_transaction t) t
unfolding parse_transaction deserialize_struct pack_transaction
Reads-parse_transaction t v =
    Reads-bind (next_field 8 number_u32) _ (to_le_bytes 4 t.expiration) _
      (Reads-next_field 7 number_u32 _ (Reads-number_u32 t.expiration v.expiration))
      (Reads-bind (next_field 7 number_u16) _ (to_le_bytes 2 t.ref_block_num) _
        (Reads-next_field 6 number_u16 _ (Reads-number_u16 t.ref_block_num v.ref_block_num))
        (Reads-bind (next_field 6 number_u32) _ (to_le_bytes 4 t.ref_block_prefix) _
          (Reads-next_field 5 number_u32 _ (Reads-number_u32 t.ref_block_prefix v.ref_block_prefix))
          (Reads-bind (next_field 5 number_varuint) _ (pack_varuint t.max_net_usage_words) _
            (Reads-next_field 4 number_varuint _
              (Reads-number_varuint t.max_net_usage_words v.max_net_usage_words))
            (Reads-bind (next_field 4 number_u8) _ (pack_byte t.max_cpu_usage_ms) _
              (Reads-next_field 3 number_u8 (pack_byte t.max_cpu_usage_ms)
                (Reads-number_u8 t.max_cpu_usage_ms))
              (Reads-bind (next_field 3 number_varuint) _ (pack_varuint t.delay_sec) _
                (Reads-next_field 2 number_varuint _ (Reads-number_varuint t.delay_sec v.delay_sec))
                (Reads-bind (next_field 2 (parse_vec parse_action)) _
                  (pack_list pack_action t.ctx_free_actions) _
                  (Reads-next_field 1 (parse_vec parse_action) _ (
                    All-Reads parse_action pack_action IsAction Reads-parse_action
                      t.ctx_free_actions v.ctx_free_actions))
                  (Reads-return (next_field 1 (parse_vec parse_action)) _
                    (pack_list pack_action t.actions)
                    (Reads-next_field 0 (parse_vec parse_action) _ (
                      All-Reads parse_action pack_action IsAction Reads-parse_action t.actions
                        v.actions)))))))))

-- Whatever transaction the chain packs, within the widths of its fields and with names that are
-- texts of u64 numbers, the decoder returns that transaction, field by field, and leaves the bytes
-- that follow, whatever they are.
pub from_bytes-pack_transaction :
    (t : Transaction) (rest : List ℕ)
    → IsTransaction t
    → from_bytes (pack_transaction t ++ rest) ≡ parsed t rest
unfolding from_bytes
from_bytes-pack_transaction t rest v = Reads-parse_transaction t v rest
