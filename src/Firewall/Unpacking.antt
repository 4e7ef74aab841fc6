-- ===== src/Firewall/Unpacking.antt =====
-- Where `handle_request` (antelope-firewall-lib/src/firewall_builder.rs) finds the packed form of a
-- transaction in a body.
use antelope_firewall.Prelude.{
  ◌≡◌, ◌⊎◌, inl, inr, Bool-cases, Option-cases, true, Option, none, some, arith, Text, codes,
}
use antelope_firewall.Policy.{JsonApi, bind_option}
use antelope_firewall.Firewall.Body.{trx_root, packed_trx, unpack_trx}

module _ (j : JsonApi) (hex_decode : Text → Option Text) where
  open j use {Value, is_object, as_str, get_field}

  -- The object has a field packed_trx, a string that decodes to these bytes.
  abbrev pub Packs : Value → Text → Type 0
  Packs m bytes =
      (v : Value) × (hex : Text) × (get_field (codes "packed_trx") m ≡ some v)
      × (as_str v ≡ some hex)
      × (hex_decode hex ≡ some bytes)

  -- The body packs these bytes: in its field transaction, if it has one and that is an object, or
  -- in itself, if it has no field transaction.
  abbrev pub Carries : Value → Text → Type 0
  Carries root bytes =
      ((get_field (codes "transaction") root ≡ none) × Packs root bytes)
      ⊎ ((m : Value) × (get_field (codes "transaction") root ≡ some m)
          × (is_object m ≡ true)
          × Packs m bytes)

  module _ (decode_trx : Text → Option Value) where
    pub packed_trx-Carries :
        (root : Value) (bytes : Text)
        → Carries root bytes
        → packed_trx j hex_decode decode_trx root ≡ some bytes
    unfolding packed_trx trx_root
    packed_trx-Carries root bytes (inl (absent, (v, hex, field, str, decodes))) =
        ground (arith, absent, field, str, decodes)
    packed_trx-Carries root bytes (inr (m, there, object, (v, hex, field, str, decodes))) =
        ground (arith, there, object, field, str, decodes)

    Packs-hex_decode :
        (m : Value) (bytes : Text)
        → bind_option (bind_option (get_field (codes "packed_trx") m) as_str) hex_decode
          ≡ some bytes
        → Packs m bytes
    Packs-hex_decode m bytes e = elim (Option-cases (get_field (codes "packed_trx") m)) [
      | inl q ↦ ground (arith, e, q)
      | inr (v, q) ↦ elim (Option-cases (as_str v)) [
        | inl p ↦ ground (arith, e, q, p)
        | inr (hex, p) ↦ (v, hex, q, p, ground (arith, e, q, p))
      ]
    ]

    Carries-packed_trx :
        (root : Value) (bytes : Text)
        → packed_trx j hex_decode decode_trx root ≡ some bytes
        → Carries root bytes
    unfolding packed_trx trx_root
    Carries-packed_trx root bytes e = elim (Option-cases (get_field (codes "transaction") root)) [
      | inl absent ↦ inl (absent, Packs-hex_decode root bytes (ground (arith, e, absent)))
      | inr (m, there) ↦ elim (Bool-cases (is_object m)) [
        | inl object ↦
            inr (m, there, object, Packs-hex_decode m bytes (ground (arith, e, there, object)))
        | inr other ↦ ground (arith, e, there, other)
      ]
    ]

    -- A body is decoded only where the code looks: a body that packs no bytes, neither in an object in
    -- its field transaction nor, without a field transaction, in itself, is left as the client wrote
    -- it. Such is a body with an object transaction that packs nothing, whatever packed_trx lies
    -- beside that object.
    pub unpack_trx_unpacked :
        (root : Value)
        → ((bytes : Text) → ¬ Carries root bytes)
        → unpack_trx j hex_decode decode_trx root ≡ root
    unfolding unpack_trx
    unpack_trx_unpacked root nothing =
        elim (Option-cases (packed_trx j hex_decode decode_trx root)) [
          | inl e ↦ ground (arith, e)
          | inr (bytes, e) ↦ absurd (nothing bytes (Carries-packed_trx root bytes e))
        ]
