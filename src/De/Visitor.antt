-- ===== src/De/Visitor.antt =====
-- The visitors of serde and the methods of `serde::Deserializer` for the `Deserializer` of
-- antelope-firewall-lib/src/de.rs: each parses what its type asks for and hands it to the visitor.
use antelope_firewall.Prelude.{
  ℕ, Bool, Option, none, some, List, Text, codes, length, Result, ok, err,
}
use antelope_firewall.De.{
  Error, message, expected_string, parsed, failed, panicked, Parser, fail, ◌>>=◌, parse_bool, ℤ,
  parse_u8, parse_u16, parse_u32, parse_u64, parse_u128, parse_i8, parse_i16, parse_i32, parse_i64,
  parse_i128, parse_varuint, visit_seq,
}

-- `Visitor`: the methods that a visitor writes; serde's own, an error, stands for the others. A
-- sequence comes as the number of its elements and the deserializer that they are read from.
pub record Visitor (A : Type 0) : Type 0 where
  pub visit_bool : Option (Bool → Result Error A)
  pub visit_i8 : Option (ℤ → Result Error A)
  pub visit_i16 : Option (ℤ → Result Error A)
  pub visit_i32 : Option (ℤ → Result Error A)
  pub visit_i64 : Option (ℤ → Result Error A)
  pub visit_i128 : Option (ℤ → Result Error A)
  pub visit_u8 : Option (ℕ → Result Error A)
  pub visit_u16 : Option (ℕ → Result Error A)
  pub visit_u32 : Option (ℕ → Result Error A)
  pub visit_u64 : Option (ℕ → Result Error A)
  pub visit_u128 : Option (ℕ → Result Error A)
  pub visit_borrowed_str : Option (Text → Result Error A)
  pub visit_newtype_struct : Option (Parser A)
  pub visit_elements : Option (ℕ → Parser A)

abbrev pub no_methods : {A : Type 0} → Visitor A
no_methods = record {
  visit_bool = none;
  visit_i8 = none;
  visit_i16 = none;
  visit_i32 = none;
  visit_i64 = none;
  visit_i128 = none;
  visit_u8 = none;
  visit_u16 = none;
  visit_u32 = none;
  visit_u64 = none;
  visit_u128 = none;
  visit_borrowed_str = none;
  visit_newtype_struct = none;
  visit_elements = none;
}

-- The error of a method that the visitor does not write.
abbrev invalid_type : Error
invalid_type = message (codes "invalid type")

abbrev visit : {X A : Type 0} → Option (X → Result Error A) → X → Parser A
visit none x input = failed invalid_type
visit (some method) x input = elim (method x) [ ok a ↦ parsed a input | err e ↦ failed e ]

abbrev visit_sequence : {A : Type 0} → Option (ℕ → Parser A) → ℕ → Parser A
visit_sequence none len = fail invalid_type
visit_sequence (some method) len = method len

abbrev visit_inner : {A : Type 0} → Option (Parser A) → Parser A
visit_inner none = fail invalid_type
visit_inner (some method) = method

-- `unimplemented!()`.
abbrev unimplemented : {A : Type 0} → Parser A
unimplemented input = panicked

unfoldable pub parse_signed : {A : Type 0} → Parser A
parse_signed = unimplemented

unfoldable pub parse_string : Parser Text
parse_string = unimplemented

module _ {A : Type 0} where
  unfoldable pub deserialize_any : Visitor A → Parser A
  deserialize_any visitor = unimplemented

  unfoldable pub deserialize_bool : Visitor A → Parser A
  deserialize_bool visitor = parse_bool >>= visit visitor.visit_bool

  unfoldable pub deserialize_i8 : Visitor A → Parser A
  deserialize_i8 visitor = parse_i8 >>= visit visitor.visit_i8

  unfoldable pub deserialize_i16 : Visitor A → Parser A
  deserialize_i16 visitor = parse_i16 >>= visit visitor.visit_i16

  unfoldable pub deserialize_i32 : Visitor A → Parser A
  deserialize_i32 visitor = parse_i32 >>= visit visitor.visit_i32

  unfoldable pub deserialize_i64 : Visitor A → Parser A
  deserialize_i64 visitor = parse_i64 >>= visit visitor.visit_i64

  unfoldable pub deserialize_i128 : Visitor A → Parser A
  deserialize_i128 visitor = parse_i128 >>= visit visitor.visit_i128

  unfoldable pub deserialize_u8 : Visitor A → Parser A
  deserialize_u8 visitor = parse_u8 >>= visit visitor.visit_u8

  unfoldable pub deserialize_u16 : Visitor A → Parser A
  deserialize_u16 visitor = parse_u16 >>= visit visitor.visit_u16

  unfoldable pub deserialize_u32 : Visitor A → Parser A
  deserialize_u32 visitor = parse_u32 >>= visit visitor.visit_u32

  unfoldable pub deserialize_u64 : Visitor A → Parser A
  deserialize_u64 visitor = parse_u64 >>= visit visitor.visit_u64

  unfoldable pub deserialize_u128 : Visitor A → Parser A
  deserialize_u128 visitor = parse_u128 >>= visit visitor.visit_u128

  unfoldable pub deserialize_f32 : Visitor A → Parser A
  deserialize_f32 visitor = unimplemented

  unfoldable pub deserialize_f64 : Visitor A → Parser A
  deserialize_f64 visitor = unimplemented

  unfoldable pub deserialize_char : Visitor A → Parser A
  deserialize_char visitor = parse_varuint >>= visit visitor.visit_u32

  unfoldable pub deserialize_str : Visitor A → Parser A
  deserialize_str visitor = parse_string >>= visit visitor.visit_borrowed_str

  unfoldable pub deserialize_string : Visitor A → Parser A
  deserialize_string visitor = deserialize_str visitor

  unfoldable pub deserialize_bytes : Visitor A → Parser A
  deserialize_bytes visitor = unimplemented

  unfoldable pub deserialize_byte_buf : Visitor A → Parser A
  deserialize_byte_buf visitor = unimplemented

  unfoldable pub deserialize_option : Visitor A → Parser A
  deserialize_option visitor = unimplemented

  unfoldable pub deserialize_unit : Visitor A → Parser A
  deserialize_unit visitor = unimplemented

  unfoldable pub deserialize_unit_struct : Text → Visitor A → Parser A
  deserialize_unit_struct name visitor = deserialize_unit visitor

  unfoldable pub deserialize_newtype_struct : Text → Visitor A → Parser A
  deserialize_newtype_struct name visitor = visit_inner visitor.visit_newtype_struct

  unfoldable pub deserialize_seq : Visitor A → Parser A
  deserialize_seq visitor =
      parse_varuint >>= λ array_length. visit_sequence visitor.visit_elements array_length

  -- The length that the type has is not used: a length is read.
  unfoldable pub deserialize_tuple : ℕ → Visitor A → Parser A
  deserialize_tuple len visitor = deserialize_seq visitor

  unfoldable pub deserialize_tuple_struct : Text → ℕ → Visitor A → Parser A
  deserialize_tuple_struct name len visitor = deserialize_seq visitor

  unfoldable pub deserialize_map : Visitor A → Parser A
  deserialize_map visitor = unimplemented

  -- A struct is the sequence of its fields.
  unfoldable pub deserialize_struct : Text → List Text → Visitor A → Parser A
  deserialize_struct name fields visitor = visit_sequence visitor.visit_elements (length fields)

  unfoldable pub deserialize_enum : Text → List Text → Visitor A → Parser A
  deserialize_enum name variants visitor = unimplemented

  unfoldable pub deserialize_identifier : Visitor A → Parser A
  deserialize_identifier visitor = deserialize_str visitor

  unfoldable pub deserialize_ignored_any : Visitor A → Parser A
  deserialize_ignored_any visitor = deserialize_any visitor

-- `MapAccess` of `CommaSeparated`, and `EnumAccess` and `VariantAccess` of `Enum`.
module _ {A : Type 0} where
  unfoldable pub next_key_seed : Parser A → Parser (Option A)
  next_key_seed seed = unimplemented

  unfoldable pub next_value_seed : Parser A → Parser A
  next_value_seed seed = unimplemented

  unfoldable pub variant_seed : Parser A → Parser A
  variant_seed seed = unimplemented

  unfoldable pub unit_variant : Parser A
  unit_variant = fail expected_string

  unfoldable pub newtype_variant_seed : Parser A → Parser A
  newtype_variant_seed seed = seed

  unfoldable pub tuple_variant : ℕ → Visitor A → Parser A
  tuple_variant len visitor = deserialize_seq visitor

  unfoldable pub struct_variant : List Text → Visitor A → Parser A
  struct_variant fields visitor = deserialize_map visitor

-- serde's visitor of an unsigned integer, for the methods of the widths that are used.
abbrev pub number_visitor : Visitor ℕ
number_visitor = record (no_methods {A = ℕ}) {
  visit_u8 = some ok;
  visit_u16 = some ok;
  visit_u32 = some ok;
}

-- serde's visitor of a `Vec`, for elements that a parser reads.
abbrev pub vec_visitor : {A : Type 0} → Parser A → Visitor (List A)
vec_visitor {A} seed = record (no_methods {A = List A}) { visit_elements = some (visit_seq seed) }

-- `VaruintVisitor`.
abbrev pub varuint_visitor : Visitor ℕ
varuint_visitor = record (no_methods {A = ℕ}) { visit_u32 = some λ value. ok value }

unfoldable pub number_u8 : Parser ℕ
number_u8 = deserialize_u8 number_visitor

unfoldable pub number_u16 : Parser ℕ
number_u16 = deserialize_u16 number_visitor

unfoldable pub number_u32 : Parser ℕ
number_u32 = deserialize_u32 number_visitor

-- `Varuint`, by its number.
unfoldable pub number_varuint : Parser ℕ
number_varuint = deserialize_char varuint_visitor

unfoldable pub parse_vec : {A : Type 0} → Parser A → Parser (List A)
parse_vec seed = deserialize_seq (vec_visitor seed)
