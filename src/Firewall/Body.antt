-- ===== src/Firewall/Body.antt =====
-- The request body in `handle_request` (antelope-firewall-lib/src/firewall_builder.rs): its size
-- limit, its collection and its JSON value with the decoded transaction. The hex decoder and the
-- transaction decoder with its JSON form are parameters.
use antelope_firewall.Prelude.{
  ℕ, ◌-◌, ◌^◌, Bool, true, false, Option, none, some, [], ◌∷◌, Text, codes, ltb, if◌then◌else◌,
  Result, ok, ◌>>=◌, ok_or,
}
use antelope_firewall.Policy.{JsonApi, bind_option}

pub data Method : Type 0 where
  post options : Method
  other : Method

abbrev pub is_post : Method → Bool
is_post post = true
is_post options = false
is_post other = false

abbrev pub u64_max : ℕ
u64_max = 2 ^ 64 - 1

abbrev upper_or_max : Option ℕ → ℕ
upper_or_max none = u64_max
upper_or_max (some n) = n

-- The check of the size hint, before anything else is read.
unfoldable pub too_big : Option ℕ → ℕ → Bool
too_big upper max_request_body_size = ltb max_request_body_size (upper_or_max upper)

pub data BodyError : Type 0 where
  unreadable not_json : BodyError

-- The bytes of the body; only a POST is read, and `none` is an error while reading.
unfoldable pub body_bytes : Method → Option Text → Result BodyError Text
body_bytes method body = if is_post method then ok_or body unreadable else ok []

abbrev is_nil : Text → Bool
is_nil [] = true
is_nil (b ∷ bs) = false

module _ (j : JsonApi) (hex_decode : Text → Option Text) (decode_trx : Text → Option j.Value) where
  open j use {Value, null, parse_json, is_object, as_str, get_field, insert_field}

  -- The object that holds `packed_trx`: the field `transaction`, if there is one and it is an
  -- object, or the root.
  unfoldable pub trx_root : Value → Option Value
  trx_root root = elim (get_field (codes "transaction") root) [
    | none ↦ some root
    | some m ↦ if is_object m then some m else none
  ]

  unfoldable pub packed_trx : Value → Option Text
  packed_trx root =
      bind_option
        (bind_option (bind_option (trx_root root) (get_field (codes "packed_trx"))) as_str)
        hex_decode

  -- The parsed body, with the decoded transaction beside what the client sent.
  unfoldable pub unpack_trx : Value → Value
  unpack_trx root =
      if is_object root
      then elim (bind_option (packed_trx root) decode_trx) [
        | none ↦ root
        | some serialized ↦ insert_field (codes "unpacked_trx") serialized root
      ]
      else root

  unfoldable pub body_json : Method → Text → Result BodyError Value
  body_json method bytes =
      if is_post method
      then if is_nil bytes
        then ok null
        else (ok_or (parse_json bytes) not_json >>= λ parsed. ok (unpack_trx parsed))
      else ok null
