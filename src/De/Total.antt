-- ===== src/De/Total.antt =====
-- On any bytes the decoder of antelope-firewall-lib/src/de.rs comes to a transaction within the widths
-- of its fields or to one error, and never panics.
pub mod Parsers
use antelope_firewall.Prelude.{ℕ, ◌^◌, ◌<◌, ◌≡◌, refl, sym, subst, ◌⊎◌, inl, inr, List, All}
use antelope_firewall.De.{
  eof, parsed, failed, Parser, next_byte, read_le, parse_u8, parse_u16, parse_u32, parse_u64,
  parse_varuint, visit_seq, next_field,
}
use antelope_firewall.De.Visitor.{
  deserialize_u8, deserialize_u16, deserialize_u32, deserialize_u64, deserialize_char,
  deserialize_seq, deserialize_struct, number_u8, number_u16, number_u32, number_varuint, parse_vec,
}
use antelope_firewall.De.Names.{name_to_string}
use antelope_firewall.De.Transaction.{
  Transaction, parse_name, parse_authorization, parse_action, parse_transaction, from_bytes,
}
use antelope_firewall.De.Packing.{
  IsU32, IsName, IsByte, IsList, IsAuthorization, IsAction, IsTransaction,
}
use antelope_firewall.De.Total.Parsers.{
  Sound-cases, Safe, Safe-bind, Safe-return, Safe-next_field, Safe-next_byte, Safe-read_le,
  Safe-parse_varuint, Safe-visit_seq,
}

Safe-parse_vec :
    {A : Type 0} (P : A → Type 0) (p : Parser A) → Safe P p → Safe (IsList P) (parse_vec p)
unfolding parse_vec deserialize_seq
Safe-parse_vec P p sp input h =
    Safe-bind IsU32 (IsList P) parse_varuint (visit_seq p) Safe-parse_varuint counted input h
  where
    counted : (n : ℕ) → IsU32 n → Safe (IsList P) (visit_seq p n)
    counted n lt rest left =
        elim (Sound-cases _ (visit_seq p n rest) (Safe-visit_seq P p n sp rest left)) [
          | inr e ↦ rw e refl
          | inl (as', rest', e, (len, each), left') ↦ rw e ((subst IsU32 (sym len) lt, each), left')
        ]

Safe-parse_name : Safe IsName parse_name
unfolding parse_name deserialize_u64 parse_u64
Safe-parse_name =
    Safe-bind (λ n. n < 256 ^ 8) IsName (read_le 8 8) _ (Safe-read_le 8)
      λ n lt. Safe-return IsName (name_to_string n) (n, lt, refl)

-- The numbers, behind their visitors.
Safe-number_u8 : Safe IsByte number_u8
unfolding number_u8 deserialize_u8 parse_u8
Safe-number_u8 = Safe-bind IsByte IsByte next_byte _ Safe-next_byte λ n lt. Safe-return IsByte n lt

Safe-number_u16 : Safe (λ n. n < 2 ^ 16) number_u16
unfolding number_u16 deserialize_u16 parse_u16
Safe-number_u16 =
    Safe-bind (λ n. n < 2 ^ 16) (λ n. n < 2 ^ 16) (read_le 2 2) _ (Safe-read_le 2)
      λ n lt. Safe-return (λ k. k < 2 ^ 16) n lt

Safe-number_u32 : Safe IsU32 number_u32
unfolding number_u32 deserialize_u32 parse_u32
Safe-number_u32 =
    Safe-bind IsU32 IsU32 (read_le 4 4) _ (Safe-read_le 4) λ n lt. Safe-return IsU32 n lt

Safe-number_varuint : Safe IsU32 number_varuint
unfolding number_varuint deserialize_char
Safe-number_varuint =
    Safe-bind IsU32 IsU32 parse_varuint _ Safe-parse_varuint λ n lt. Safe-return IsU32 n lt

Safe-parse_authorization : Safe IsAuthorization parse_authorization
unfolding parse_authorization deserialize_struct
Safe-parse_authorization =
    Safe-bind IsName IsAuthorization (next_field 2 parse_name) _
      (Safe-next_field IsName 1 parse_name Safe-parse_name)
      λ actor ha.
        Safe-bind IsName IsAuthorization (next_field 1 parse_name) _
          (Safe-next_field IsName 0 parse_name Safe-parse_name)
          λ permission hp.
            Safe-return IsAuthorization (record { actor = actor; permission = permission })
              (record { actor = ha; permission = hp })

Safe-parse_action : Safe IsAction parse_action
unfolding parse_action deserialize_struct
Safe-parse_action =
    Safe-bind IsName IsAction (next_field 4 parse_name) _
      (Safe-next_field IsName 3 parse_name Safe-parse_name)
      λ account ha.
        Safe-bind IsName IsAction (next_field 3 parse_name) _
          (Safe-next_field IsName 2 parse_name Safe-parse_name)
          λ name hn.
            Safe-bind (IsList IsAuthorization) IsAction
              (next_field 2 (parse_vec parse_authorization)) _
              (Safe-next_field _ 1 _
                (Safe-parse_vec IsAuthorization parse_authorization Safe-parse_authorization))
              λ authorization hz.
                Safe-bind (IsList IsByte) IsAction (next_field 1 (parse_vec number_u8)) _
                  (Safe-next_field _ 0 _ (Safe-parse_vec IsByte number_u8 Safe-number_u8))
                  λ bytes hb.
                    Safe-return IsAction
                      (record {
                        account = account;
                        name = name;
                        authorization = authorization;
                        «data» = bytes;
                      })
                      (record { account = ha; name = hn; authorization = hz; «data» = hb })

Safe-actions : Safe (IsList IsAction) (parse_vec parse_action)
Safe-actions = Safe-parse_vec IsAction parse_action Safe-parse_action

Safe-parse_transaction : Safe IsTransaction parse_transaction
unfolding parse_transaction deserialize_struct
Safe-parse_transaction =
    Safe-bind IsU32 IsTransaction (next_field 8 number_u32) _
      (Safe-next_field IsU32 7 number_u32 Safe-number_u32)
      λ expiration h1.
        Safe-bind (λ n. n < 2 ^ 16) IsTransaction (next_field 7 number_u16) _
          (Safe-next_field (λ n. n < 2 ^ 16) 6 number_u16 Safe-number_u16)
          λ ref_block_num h2.
            Safe-bind IsU32 IsTransaction (next_field 6 number_u32) _
              (Safe-next_field IsU32 5 number_u32 Safe-number_u32)
              λ ref_block_prefix h3.
                Safe-bind IsU32 IsTransaction (next_field 5 number_varuint) _
                  (Safe-next_field IsU32 4 number_varuint Safe-number_varuint)
                  λ max_net_usage_words h4.
                    Safe-bind IsByte IsTransaction (next_field 4 number_u8) _
                      (Safe-next_field IsByte 3 number_u8 Safe-number_u8)
                      λ max_cpu_usage_ms h5.
                        Safe-bind IsU32 IsTransaction (next_field 3 number_varuint) _
                          (Safe-next_field IsU32 2 number_varuint Safe-number_varuint)
                          λ delay_sec h6.
                            Safe-bind (IsList IsAction) IsTransaction
                              (next_field 2 (parse_vec parse_action)) _
                              (Safe-next_field (IsList IsAction) 1 (parse_vec parse_action)
                                Safe-actions)
                              λ ctx_free_actions h7.
                                Safe-bind (IsList IsAction) IsTransaction
                                  (next_field 1 (parse_vec parse_action)) _
                                  (Safe-next_field (IsList IsAction) 0 (parse_vec parse_action)
                                    Safe-actions)
                                  λ actions h8.
                                    Safe-return IsTransaction
                                      (record {
                                        expiration = expiration;
                                        ref_block_num = ref_block_num;
                                        ref_block_prefix = ref_block_prefix;
                                        max_net_usage_words = max_net_usage_words;
                                        max_cpu_usage_ms = max_cpu_usage_ms;
                                        delay_sec = delay_sec;
                                        ctx_free_actions = ctx_free_actions;
                                        actions = actions;
                                      })
                                      (record {
                                        expiration = h1;
                                        ref_block_num = h2;
                                        ref_block_prefix = h3;
                                        max_net_usage_words = h4;
                                        max_cpu_usage_ms = h5;
                                        delay_sec = h6;
                                        ctx_free_actions = h7;
                                        actions = h8;
                                      })

-- Whatever bytes a client sends, the decoder ends in one of two ways: with a transaction whose
-- numbers are within the widths of their fields and whose names are texts of u64 numbers, or with
-- the error for the end of the input. It never panics and gives no other error.
pub from_bytes_total :
    (s : List ℕ)
    → All IsByte s
    → ((t : Transaction) × (rest : List ℕ) × (from_bytes s ≡ parsed t rest)
        × IsTransaction t
        × All IsByte rest)
      ⊎ (from_bytes s ≡ failed eof)
unfolding from_bytes
from_bytes_total s bytes = Sound-cases IsTransaction (from_bytes s) (Safe-parse_transaction s bytes)
