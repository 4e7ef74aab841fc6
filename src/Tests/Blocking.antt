-- ===== src/Tests/Blocking.antt =====
-- Examples of a packed transaction in a request body and of its refusal
-- (antelope-firewall-lib/src/firewall_builder.rs, antelope-firewall-lib/src/config.rs).
use antelope_firewall.Prelude.{
  arith, ℕ, ◌≡◌, refl, ap, ◌∙◌, inl, inr, Option, none, some, [], ◌∷◌, ◌++◌, Text, codes, ◌==◌,
}
use antelope_firewall.De.Packing.{pack_transaction}
use antelope_firewall.Policy.{accounts, actors}
use antelope_firewall.Routing.{Order}
use antelope_firewall.Firewall.Unpacking.{Carries, unpack_trx_unpacked}
use antelope_firewall.Firewall.Body.{post, unpack_trx}
use antelope_firewall.Firewall.Decoding.{decode_trx}
use antelope_firewall.Firewall.Blocking.{unpack_trx-pack_transaction}
use antelope_firewall.Firewall.Handler.{Incoming, Surroundings}
use antelope_firewall.Tests.Apis.{
  urls, floats, headers, addresses, Json, no_fields, str, field, jsons, values,
}
use antelope_firewall.Tests.Packed.{burn, burn-IsTransaction}

abbrev pub as_bytes : Text → Option Text
as_bytes t = some t

abbrev pub decoder : Text → Option Json
decoder = decode_trx jsons values

abbrev packed_burn : Text
packed_burn = pack_transaction burn ++ 0 ∷ []

-- The object that holds the packed form of a transaction.
abbrev pub pushed : Json
pushed = field (codes "packed_trx") (str packed_burn) no_fields

-- A client that adds a decoded form of its own, which calls nothing.
abbrev body_with_decoy : Json
body_with_decoy =
    field (codes "unpacked_trx") no_fields (field (codes "transaction") pushed no_fields)

decoy_packed : Carries jsons as_bytes body_with_decoy (pack_transaction burn ++ 0 ∷ [])
unfolding ◌==◌
decoy_packed = inr (pushed, refl, refl, (str packed_burn, packed_burn, refl, refl, refl))

-- A client that hides the packed form beside an empty transaction.
abbrev hiding : Json
hiding = field (codes "transaction") no_fields pushed

hiding_packs_nothing : (bytes : Text) → ¬ Carries jsons as_bytes hiding bytes
unfolding ◌==◌
hiding_packs_nothing bytes (inl (absent, p)) = cc
hiding_packs_nothing bytes (inr (m, there, object, (v, hex, found, str_of, decodes))) =
    let same : no_fields ≡ m = ground (arith, there) in
    let empty : none ≡ some v = ap (jsons.get_field (codes "packed_trx")) same ∙ found in cc

unpack_trx_unpacked_example : unpack_trx jsons as_bytes decoder hiding ≡ hiding
unpack_trx_unpacked_example = unpack_trx_unpacked jsons as_bytes decoder hiding hiding_packs_nothing

unpack_trx-pack_transaction_example :
    (accounts jsons (unpack_trx jsons as_bytes decoder body_with_decoy) ≡ codes "atomicassets" ∷ [])
    × (actors jsons (unpack_trx jsons as_bytes decoder body_with_decoy) ≡ codes "dyjsc.wam" ∷ [])
unpack_trx-pack_transaction_example =
    unpack_trx-pack_transaction jsons values as_bytes body_with_decoy burn (0 ∷ [])
      burn-IsTransaction refl decoy_packed

abbrev pub push : Incoming urls headers addresses jsons floats
push = record {
  method = post;
  path = codes "/v1/chain/push_transaction";
  query = none;
  headers = [];
  size_upper = some 67;
  body = some (b'{' ∷ (pack_transaction burn ++ 0 ∷ []));
}

abbrev pub silence : Surroundings urls headers addresses jsons floats
silence = record {
  clock = λ i k. k;
  pin_now = 0;
  sample = λ weights. none;
  send = λ url hs bytes. none;
}

abbrev pub no_order : ℕ → ℕ → Option Order
no_order a b = none

pub pushed_packed : Carries jsons as_bytes pushed (pack_transaction burn ++ 0 ∷ [])
unfolding ◌==◌
pushed_packed = inl (refl, (str packed_burn, packed_burn, refl, refl, refl))
