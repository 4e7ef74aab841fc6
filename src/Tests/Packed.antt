-- ===== src/Tests/Packed.antt =====
-- Examples of the decoder (antelope-firewall-lib/src/de.rs), on the transaction of its first test, and
-- of what the firewall makes of it (antelope-firewall-lib/src/firewall_builder.rs).
use antelope_firewall.Prelude.{
  ℕ, ◌≡◌, refl, sym, ◌⊎◌, true, List, [], ◌∷◌, ◌++◌, arith, codes, ltb, all, All,
}
use antelope_firewall.De.{eof, parsed, failed}
use antelope_firewall.De.Names.{
  name_to_string, name_loop, to_le_bytes, read_bits, symbol, trim_dots,
}
use antelope_firewall.De.Names.Value.{
  name_value, read_symbols, symbol_value, name_value-name_to_string,
}
use antelope_firewall.De.Transaction.{Authorization, Action, Transaction, from_bytes}
use antelope_firewall.De.Packing.{
  IsByte, IsAuthorization, IsAction, IsTransaction, pack_groups, pack_authorization, pack_action,
  pack_transaction,
}
use antelope_firewall.De.RoundTrip.{from_bytes-pack_transaction}
use antelope_firewall.De.Total.{from_bytes_total}
use antelope_firewall.De.Truncation.{from_bytes-truncated}

abbrev pub burn_bytes : List ℕ
burn_bytes =
    71 ∷ 58 ∷ 192 ∷ 101 ∷ 235 ∷ 22 ∷ 192 ∷ 4 ∷ 128 ∷ 219 ∷ 0 ∷ 0 ∷ 0 ∷ 0 ∷ 1 ∷ 128 ∷ 179 ∷ 194 ∷ 216
    ∷ 32 ∷ 39 ∷ 105 ∷ 54 ∷ 0 ∷ 0 ∷ 200 ∷ 10 ∷ 99 ∷ 51 ∷ 175 ∷ 62 ∷ 1 ∷ 0 ∷ 0 ∷ 144 ∷ 134 ∷ 3 ∷ 132
    ∷ 159 ∷ 79 ∷ 0 ∷ 0 ∷ 0 ∷ 0 ∷ 168 ∷ 237 ∷ 50 ∷ 50 ∷ 16 ∷ 0 ∷ 0 ∷ 144 ∷ 134 ∷ 3 ∷ 132 ∷ 159 ∷ 79
    ∷ 223 ∷ 128 ∷ 145 ∷ 24 ∷ 0 ∷ 1 ∷ 0 ∷ 0 ∷ 0 ∷ []

abbrev pub burn_data : List ℕ
burn_data = 0 ∷ 0 ∷ 144 ∷ 134 ∷ 3 ∷ 132 ∷ 159 ∷ 79 ∷ 223 ∷ 128 ∷ 145 ∷ 24 ∷ 0 ∷ 1 ∷ 0 ∷ 0 ∷ []

abbrev pub dyjsc : Authorization
dyjsc = record { actor = codes "dyjsc.wam"; permission = codes "active" }

abbrev pub burn_action : Action
burn_action = record {
  account = codes "atomicassets";
  name = codes "burnasset";
  authorization = dyjsc ∷ [];
  «data» = burn_data;
}

abbrev pub burn : Transaction
burn = record {
  expiration = 1707096647;
  ref_block_num = 5867;
  ref_block_prefix = 3682600128;
  max_net_usage_words = 0;
  max_cpu_usage_ms = 0;
  delay_sec = 0;
  ctx_free_actions = [];
  actions = burn_action ∷ [];
}

-- The names, as numbers.
atomicassets : name_to_string 3920707972631802752 ≡ codes "atomicassets"
unfolding name_to_string name_loop to_le_bytes read_bits symbol trim_dots
atomicassets = refl

burnasset : name_to_string 4516885451751555072 ≡ codes "burnasset"
unfolding name_to_string name_loop to_le_bytes read_bits symbol trim_dots
burnasset = refl

dyjsc_wam : name_to_string 5737449600970653696 ≡ codes "dyjsc.wam"
unfolding name_to_string name_loop to_le_bytes read_bits symbol trim_dots
dyjsc_wam = refl

active : name_to_string 3617214756542218240 ≡ codes "active"
unfolding name_to_string name_loop to_le_bytes read_bits symbol trim_dots
active = refl

name_value-name_to_string_example :
    name_value (name_to_string 3617214756542218240) ≡ 3617214756542218240
name_value-name_to_string_example = name_value-name_to_string 3617214756542218240 (omega arith)

bytes_of : (xs : List ℕ) → all (λ b. ltb b 256) xs ≡ true → All IsByte xs
bytes_of [] h = tt
bytes_of (x ∷ xs) h = ground (arith, bytes_of xs)

pub burn-IsTransaction : IsTransaction burn
burn-IsTransaction = record {
  expiration = omega arith;
  ref_block_num = omega arith;
  ref_block_prefix = omega arith;
  max_net_usage_words = omega arith;
  max_cpu_usage_ms = omega arith;
  delay_sec = omega arith;
  ctx_free_actions = (omega arith, tt);
  actions = (omega arith, (burn_call, tt));
}
  where
    signer : IsAuthorization dyjsc
    signer = record {
      actor = (5737449600970653696, omega arith, sym dyjsc_wam);
      permission = (3617214756542218240, omega arith, sym active);
    }

    burn_call : IsAction burn_action
    burn_call = record {
      account = (3920707972631802752, omega arith, sym atomicassets);
      name = (4516885451751555072, omega arith, sym burnasset);
      authorization = (omega arith, (signer, tt));
      «data» = (omega arith, bytes_of burn_data refl);
    }

from_bytes-pack_transaction_example :
    from_bytes (pack_transaction burn ++ 0 ∷ []) ≡ parsed burn (0 ∷ [])
from_bytes-pack_transaction_example = from_bytes-pack_transaction burn (0 ∷ []) burn-IsTransaction

from_bytes_total_example :
    ((t : Transaction) × (rest : List ℕ) × (from_bytes burn_bytes ≡ parsed t rest)
      × IsTransaction t
      × All IsByte rest)
    ⊎ (from_bytes burn_bytes ≡ failed eof)
from_bytes_total_example = from_bytes_total burn_bytes (bytes_of burn_bytes refl)

-- The last four bytes of the packed form are missing.
abbrev cut : List ℕ
cut =
    71 ∷ 58 ∷ 192 ∷ 101 ∷ 235 ∷ 22 ∷ 192 ∷ 4 ∷ 128 ∷ 219 ∷ 0 ∷ 0 ∷ 0 ∷ 0 ∷ 1 ∷ 128 ∷ 179 ∷ 194 ∷ 216
    ∷ 32 ∷ 39 ∷ 105 ∷ 54 ∷ 0 ∷ 0 ∷ 200 ∷ 10 ∷ 99 ∷ 51 ∷ 175 ∷ 62 ∷ 1 ∷ 0 ∷ 0 ∷ 144 ∷ 134 ∷ 3 ∷ 132
    ∷ 159 ∷ 79 ∷ 0 ∷ 0 ∷ 0 ∷ 0 ∷ 168 ∷ 237 ∷ 50 ∷ 50 ∷ 16 ∷ 0 ∷ 0 ∷ 144 ∷ 134 ∷ 3 ∷ 132 ∷ 159 ∷ 79
    ∷ 223 ∷ 128 ∷ 145 ∷ 24 ∷ []

cut_packed : cut ++ 0 ∷ 1 ∷ 0 ∷ 0 ∷ [] ≡ pack_transaction burn
unfolding pack_transaction pack_action pack_authorization pack_groups to_le_bytes name_value
    read_symbols symbol_value
cut_packed = refl

from_bytes-truncated_example : from_bytes cut ≡ failed eof
from_bytes-truncated_example =
    from_bytes-truncated burn cut 0 (1 ∷ 0 ∷ 0 ∷ []) burn-IsTransaction (bytes_of cut refl)
      cut_packed
