-- ===== src/De.antt =====
-- The reader of packed transactions, antelope-firewall-lib/src/de.rs: the bytes that are still to be
-- read, the integers, and the visitors of serde that the derived types use. The arithmetic is that
-- of the release build, where a shift takes its count modulo the width.
pub mod Names
pub mod Visitor
pub mod Transaction
pub mod Packing
pub mod RoundTrip
pub mod Total
pub mod Signed
pub mod Truncation
use Prim.Native.Nat.{bit_and, bit_or}
use antelope_firewall.Prelude.{
  ℕ, zero, suc, ◌+◌, ◌-◌, ◌*◌, ◌%◌, ◌^◌, Bool, true, false, Option, none, some, List, [], ◌∷◌, Text,
  codes, ltb, eqb, if◌then◌else◌, length, take, drop,
}

-- `Error`, all its variants.
pub data Error : Type 0 where
  message : Text → Error
  eof syntax expected_boolean expected_integer expected_string expected_null expected_array : Error
  expected_array_comma expected_array_end expected_map expected_map_colon expected_map_comma : Error
  expected_map_end expected_enum trailing_characters : Error

-- `Error::custom`.
abbrev pub custom : Text → Error
custom msg = message msg

-- `Display`: `none` is the panic of `todo!()`.
unfoldable pub fmt : Error → Option Text
fmt (message msg) = some msg
fmt eof = some (codes "unexpected end of input")
fmt syntax = none
fmt expected_boolean = none
fmt expected_integer = none
fmt expected_string = none
fmt expected_null = none
fmt expected_array = none
fmt expected_array_comma = none
fmt expected_array_end = none
fmt expected_map = none
fmt expected_map_colon = none
fmt expected_map_comma = none
fmt expected_map_end = none
fmt expected_enum = none
fmt trailing_characters = none

-- What a parser of the input comes to: a value with the input that is left, an error, or a panic.
pub data Outcome {ℓ} (A : Type ℓ) : Type ℓ where
  parsed : A → List ℕ → Outcome A
  failed : Error → Outcome A
  panicked : Outcome A

-- A method of `Deserializer`: a function of its input.
abbrev pub Parser {ℓ} : Type ℓ → Type ℓ
Parser A = List ℕ → Outcome A

module _ {ℓ} {A : Type ℓ} where
  abbrev pub return : A → Parser A
  return a input = parsed a input

  abbrev pub fail : Error → Parser A
  fail e input = failed e

abbrev and_then {ℓ κ} : {A : Type ℓ} {B : Type κ} → Outcome A → (A → Parser B) → Outcome B
and_then (parsed a rest) f = f a rest
and_then (failed e) f = failed e
and_then panicked f = panicked

-- The operator `?`.
infixl 5 ◌>>=◌
abbrev pub ◌>>=◌ {ℓ κ} : {A : Type ℓ} {B : Type κ} → Parser A → (A → Parser B) → Parser B
(p >>= f) input = and_then (p input) f

unfoldable pub peek_byte : Parser ℕ
peek_byte [] = failed eof
peek_byte (b ∷ bs) = parsed b (b ∷ bs)

unfoldable pub next_byte : Parser ℕ
next_byte [] = failed eof
next_byte (b ∷ bs) = parsed b bs

unfoldable pub next_bytes : ℕ → Parser (List ℕ)
next_bytes n input =
    if ltb (length input) n then failed eof else parsed (take n input) (drop n input)

unfoldable pub parse_bool : Parser Bool
parse_bool = next_byte >>= λ b.
    if eqb b 1 then return true else if eqb b 0 then return false else fail expected_boolean

-- `from_le_bytes`.
unfoldable pub from_le_bytes : List ℕ → ℕ
from_le_bytes [] = 0
from_le_bytes (b ∷ bs) = b + 256 * from_le_bytes bs

-- The bytes read are copied into an array of a size; `copy_from_slice` panics on another length.
unfoldable pub read_le : ℕ → ℕ → Parser ℕ
read_le count size = next_bytes count >>= λ bytes input.
    if eqb (length bytes) size then parsed (from_le_bytes bytes) input else panicked

unfoldable pub parse_u8 : Parser ℕ
parse_u8 = next_byte

unfoldable pub parse_u16 : Parser ℕ
parse_u16 = read_le 2 2

unfoldable pub parse_u32 : Parser ℕ
parse_u32 = read_le 4 4

unfoldable pub parse_u64 : Parser ℕ
parse_u64 = read_le 8 8

unfoldable pub parse_u128 : Parser ℕ
parse_u128 = read_le 16 16

pub data ℤ : Type 0 where
  pos : ℕ → ℤ
  negsuc : ℕ → ℤ

-- The number that the bits of a signed integer of a width stand for.
unfoldable pub signed : ℕ → ℕ → ℤ
signed bits w = if ltb w (2 ^ (bits - 1)) then pos w else negsuc (2 ^ bits - w - 1)

unfoldable pub parse_i8 : Parser ℤ
parse_i8 = next_byte >>= λ b. return (signed 8 b)

unfoldable pub parse_i16 : Parser ℤ
parse_i16 = read_le 2 2 >>= λ w. return (signed 16 w)

unfoldable pub parse_i32 : Parser ℤ
parse_i32 = read_le 4 4 >>= λ w. return (signed 32 w)

-- The source reads `size_of::<i32>()` bytes for the two widest.
unfoldable pub parse_i64 : Parser ℤ
parse_i64 = read_le 4 8 >>= λ w. return (signed 64 w)

unfoldable pub parse_i128 : Parser ℤ
parse_i128 = read_le 4 16 >>= λ w. return (signed 128 w)

abbrev pub u32_mod : ℕ
u32_mod = 2 ^ 32

-- `((x & 0x7f) as u32) << bit`.
abbrev pub shifted_group : ℕ → ℕ → ℕ
shifted_group x bit = bit_and x 0x7f * 2 ^ (bit % 32) % u32_mod

-- The loop of `parse_varuint`: a round for each byte of the input, until one has its top bit clear.
unfoldable pub varuint_loop : ℕ → ℕ → Parser ℕ
varuint_loop value bit [] = failed eof
varuint_loop value bit (x ∷ input) =
    let value' = bit_or value (shifted_group x bit) in
    let rest = varuint_loop value' ((bit + 7) % u32_mod) input in
    if eqb (bit_and x 0x80) 0 then parsed value' input else rest

unfoldable pub parse_varuint : Parser ℕ
parse_varuint = varuint_loop 0 0

-- `CommaSeparated`: its `next_element_seed` with the number of elements left.
module _ {A : Type 0} where
  unfoldable pub next_element_seed : Parser A → ℕ → Parser (Option A)
  next_element_seed seed zero = return none
  next_element_seed seed (suc len) = seed >>= λ a. return (some a)

  -- serde's visitor of a `Vec`: the elements until there is none.
  unfoldable pub visit_seq : Parser A → ℕ → Parser (List A)
  visit_seq seed zero = next_element_seed seed zero >>= λ o. return []
  visit_seq seed (suc len) = next_element_seed seed (suc len) >>= λ o.
      visit_seq seed len >>= λ rest. return (elim o [ none ↦ [] | some a ↦ a ∷ rest ])

  -- serde's visitor of a struct asks for its fields in turn; `left` of them are left.
  unfoldable pub next_field : ℕ → Parser A → Parser A
  next_field left seed = next_element_seed seed left >>= λ o. elim o [
    | none ↦ fail (custom (codes "invalid length"))
    | some a ↦ return a
  ]
