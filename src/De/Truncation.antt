-- ===== src/De/Truncation.antt =====
-- A transaction that is cut short is not decoded (antelope-firewall-lib/src/de.rs).
use Prim.Native.Nat.{bit_or}
use mathlib.Core.List.{append-nil}
use antelope_firewall.Prelude.{
  ℕ, zero, suc, ◌+◌, ◌%◌, ◌≤◌, ◌≡◌, refl, sym, ap, ◌∙◌, ◌≢◌, inl, inr, Option, none, some, List, [],
  ◌∷◌, ◌++◌, arith, codes, eqb, if◌then◌else◌, length, take, drop, All, length-append,
}
use antelope_firewall.De.{
  eof, message, fail, Outcome, parsed, failed, panicked, Parser, return, ◌>>=◌, next_byte,
  next_bytes, from_le_bytes, read_le, parse_u8, parse_u16, parse_u32, parse_u64, u32_mod,
  shifted_group, varuint_loop, parse_varuint, next_element_seed, visit_seq, next_field,
}
use antelope_firewall.De.Visitor.{
  deserialize_u8, deserialize_u16, deserialize_u32, deserialize_u64, deserialize_char,
  deserialize_seq, deserialize_struct, number_u8, number_u16, number_u32, number_varuint, parse_vec,
}
use antelope_firewall.De.Names.{name_to_string}
use antelope_firewall.De.Transaction.{
  Transaction, parse_name, parse_authorization, parse_action, parse_transaction, from_bytes,
}
use antelope_firewall.De.Packing.{IsByte, IsTransaction, pack_transaction}
use antelope_firewall.De.RoundTrip.{from_bytes-pack_transaction}
use antelope_firewall.De.Total.{from_bytes_total}

-- What a parser reads does not depend on the bytes behind it.
abbrev Extends : {A : Type 0} → Parser A → Type 0
Extends {A} p =
    (input more : List ℕ) (a : A) (rest : List ℕ)
    → p input ≡ parsed a rest
    → p (input ++ more) ≡ parsed a (rest ++ more)

parsed-injective :
    {A : Type 0} (a b : A) (xs ys : List ℕ)
    → ◌≡◌ {A = Outcome A} (parsed a xs) (parsed b ys)
    → (a ≡ b) × (xs ≡ ys)
parsed-injective a b xs ys e = ground arith

Extends-next_byte : Extends next_byte
unfolding next_byte
Extends-next_byte [] more a rest e = ground (arith, e)
Extends-next_byte (b ∷ bs) more a rest e = ground (arith, e)

Extends-bind :
    {A B : Type 0} (p : Parser A) (f : A → Parser B)
    → Extends p
    → ((a : A) → Extends (f a))
    → Extends (p >>= f)
Extends-bind {A = A} {B = B} p f ep ef input more b rest = go (p input) refl
  where
    go :
        (o : Outcome A)
        → p input ≡ o
        → (p >>= f) input ≡ parsed b rest
        → (p >>= f) (input ++ more) ≡ parsed b (rest ++ more)
    go (parsed a mid) e h = rw (ep input more a mid e) (ef a mid more b rest (ground (arith, e, h)))
    go (failed er) e h = ground (arith, e, h)
    go panicked e h = ground (arith, e, h)

Extends-return : {A : Type 0} (a : A) → Extends (return a)
Extends-return a input more b rest e = ground (arith, e)

take-append :
    (n : ℕ) (xs ys : List ℕ)
    → n ≤ length xs
    → (take n (xs ++ ys) ≡ take n xs) × (drop n (xs ++ ys) ≡ drop n xs ++ ys)
take-append zero xs ys le = (refl, refl)
take-append (suc n) [] ys le = absurd (omega arith)
take-append (suc n) (x ∷ xs) ys le =
    let rest = take-append n xs ys (omega arith) in (ap (λ t. x ∷ t) rest.0, rest.1)

Extends-next_bytes : (n : ℕ) → Extends (next_bytes n)
unfolding next_bytes
Extends-next_bytes n input more a rest e =
    ground (arith, e, take-append n input more, length-append input more)

Extends-read_le : (count size : ℕ) → Extends (read_le count size)
unfolding read_le
Extends-read_le count size = Extends-bind (next_bytes count) _ (Extends-next_bytes count) copied
  where
    copied :
        (bytes : List ℕ)
        → Extends λ input.
          if eqb (length bytes) size then parsed (from_le_bytes bytes) input else panicked
    copied bytes input more a rest e = ground (arith, e)

Extends-varuint_loop : (value bit : ℕ) → Extends (varuint_loop value bit)
unfolding varuint_loop
Extends-varuint_loop value bit [] more a rest e = ground (arith, e)
Extends-varuint_loop value bit (x ∷ input) more a rest e =
    let value' = bit_or value (shifted_group x bit) in
    ground (arith, e, Extends-varuint_loop value' ((bit + 7) % u32_mod) input more a rest)

Extends-next_element_seed :
    {A : Type 0} (p : Parser A) (n : ℕ) → Extends p → Extends (next_element_seed p n)
unfolding next_element_seed
Extends-next_element_seed p zero ep = Extends-return none
Extends-next_element_seed p (suc n) ep = Extends-bind p _ ep λ a. Extends-return (some a)

Extends-visit_seq : {A : Type 0} (p : Parser A) (n : ℕ) → Extends p → Extends (visit_seq p n)
unfolding visit_seq
Extends-visit_seq p zero ep =
    Extends-bind (next_element_seed p 0) _ (Extends-next_element_seed p 0 ep) λ o. Extends-return []
Extends-visit_seq p (suc n) ep =
    Extends-bind (next_element_seed p (suc n)) _ (Extends-next_element_seed p (suc n) ep)
      λ o. Extends-bind (visit_seq p n) _ (Extends-visit_seq p n ep) λ rest. Extends-return _

Extends-parse_vec : {A : Type 0} (p : Parser A) → Extends p → Extends (parse_vec p)
unfolding parse_vec deserialize_seq parse_varuint
Extends-parse_vec p ep =
    Extends-bind parse_varuint _ (Extends-varuint_loop 0 0) λ n. Extends-visit_seq p n ep

Extends-next_field :
    {A : Type 0} (left : ℕ) (p : Parser A) → Extends p → Extends (next_field left p)
unfolding next_field
Extends-next_field {A = A} left p ep =
    Extends-bind (next_element_seed p left) _ (Extends-next_element_seed p left ep) taken
  where
    taken :
        (o : Option A)
        → Extends {A = A}
            (elim o [ none ↦ fail (message (codes "invalid length")) | some a ↦ return a ])
    taken none input more a rest e = ground (arith, e)
    taken (some b) input more a rest e = Extends-return b input more a rest e

-- The numbers, behind their visitors.
Extends-number_u8 : Extends number_u8
unfolding number_u8 deserialize_u8 parse_u8
Extends-number_u8 = Extends-bind next_byte _ Extends-next_byte λ n. Extends-return n

Extends-number_u16 : Extends number_u16
unfolding number_u16 deserialize_u16 parse_u16
Extends-number_u16 = Extends-bind (read_le 2 2) _ (Extends-read_le 2 2) λ n. Extends-return n

Extends-number_u32 : Extends number_u32
unfolding number_u32 deserialize_u32 parse_u32
Extends-number_u32 = Extends-bind (read_le 4 4) _ (Extends-read_le 4 4) λ n. Extends-return n

Extends-number_varuint : Extends number_varuint
unfolding number_varuint deserialize_char parse_varuint
Extends-number_varuint =
    Extends-bind parse_varuint _ (Extends-varuint_loop 0 0) λ n. Extends-return n

Extends-parse_name : Extends parse_name
unfolding parse_name deserialize_u64 parse_u64
Extends-parse_name =
    Extends-bind (read_le 8 8) _ (Extends-read_le 8 8) λ n. Extends-return (name_to_string n)

Extends-parse_authorization : Extends parse_authorization
unfolding parse_authorization deserialize_struct
Extends-parse_authorization =
    Extends-bind (next_field 2 parse_name) _ (Extends-next_field 2 parse_name Extends-parse_name)
      λ actor.
        Extends-bind (next_field 1 parse_name) _
          (Extends-next_field 1 parse_name Extends-parse_name) λ permission. Extends-return _

Extends-parse_action : Extends parse_action
unfolding parse_action deserialize_struct
Extends-parse_action =
    Extends-bind (next_field 4 parse_name) _ (Extends-next_field 4 parse_name Extends-parse_name)
      λ account.
        Extends-bind (next_field 3 parse_name) _
          (Extends-next_field 3 parse_name Extends-parse_name)
          λ name.
            Extends-bind (next_field 2 (parse_vec parse_authorization)) _
              (Extends-next_field 2 _
                (Extends-parse_vec parse_authorization Extends-parse_authorization))
              λ authorization.
                Extends-bind (next_field 1 (parse_vec number_u8)) _
                  (Extends-next_field 1 _ (Extends-parse_vec number_u8 Extends-number_u8))
                  λ bytes. Extends-return _

Extends-parse_transaction : Extends parse_transaction
unfolding parse_transaction deserialize_struct
Extends-parse_transaction =
    let actions = Extends-parse_vec parse_action Extends-parse_action in
    Extends-bind (next_field 8 number_u32) _ (Extends-next_field 8 number_u32 Extends-number_u32)
      λ expiration.
        Extends-bind (next_field 7 number_u16) _
          (Extends-next_field 7 number_u16 Extends-number_u16)
          λ ref_block_num.
            Extends-bind (next_field 6 number_u32) _
              (Extends-next_field 6 number_u32 Extends-number_u32)
              λ ref_block_prefix.
                Extends-bind (next_field 5 number_varuint) _
                  (Extends-next_field 5 number_varuint Extends-number_varuint)
                  λ max_net_usage_words.
                    Extends-bind (next_field 4 number_u8) _
                      (Extends-next_field 4 number_u8 Extends-number_u8)
                      λ max_cpu_usage_ms.
                        Extends-bind (next_field 3 number_varuint) _
                          (Extends-next_field 3 number_varuint Extends-number_varuint)
                          λ delay_sec.
                            Extends-bind (next_field 2 (parse_vec parse_action)) _
                              (Extends-next_field 2 (parse_vec parse_action) actions)
                              λ ctx_free_actions.
                                Extends-bind (next_field 1 (parse_vec parse_action)) _
                                  (Extends-next_field 1 (parse_vec parse_action) actions)
                                  λ acts. Extends-return _

-- A packed transaction of which at least the last byte is missing is refused with the error for the
-- end of the input, wherever it was cut: no shorter transaction is read out of it.
pub from_bytes-truncated :
    (t : Transaction) (s : List ℕ) (b : ℕ) (missing : List ℕ)
    → IsTransaction t
    → All IsByte s
    → s ++ b ∷ missing ≡ pack_transaction t
    → from_bytes s ≡ failed eof
unfolding from_bytes
from_bytes-truncated t s b missing v bytes e = elim (from_bytes_total s bytes) [
  | inr f ↦ f
  | inl (t', rest, p, _, _) ↦ absurd (left_over t' rest p)
]
  where
    append-ne-nil : (xs : List ℕ) → xs ++ b ∷ missing ≢ []
    append-ne-nil [] h = ground (arith, h)
    append-ne-nil (x ∷ xs) h = ground (arith, h)

    left_over : (t' : Transaction) (rest : List ℕ) → from_bytes s ≢ parsed t' rest
    left_over t' rest p =
        let whole = from_bytes-pack_transaction t [] v in
        let longer = Extends-parse_transaction s (b ∷ missing) t' rest p in
        append-ne-nil rest
          (parsed-injective t' t (rest ++ b ∷ missing) [] (
            sym longer
            ∙ ap parse_transaction (e ∙ sym (append-nil (pack_transaction t)))
            ∙ whole)).1
