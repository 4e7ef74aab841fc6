-- ===== src/De/RoundTrip/Varuint.antt =====
-- `parse_varuint` of antelope-firewall-lib/src/de.rs reads back the groups of a packed number.
use Prim.Native.Nat.{bit_and, bit_or}
use native.Mathlib.Numerals.{towards_suc}
use native.Mathlib.Nat.{pow-suc, div-add-mod, mul-le-mul_right}
use antelope_firewall.Prelude.{
  ℕ, zero, suc, ◌+◌, ◌*◌, ◌/◌, ◌%◌, ◌^◌, ◌≤◌, ◌<◌, ◌≡◌, refl, sym, ap, ◌∙◌, inl, inr, List, [], ◌∷◌,
  ◌++◌, arith, ltb, Bool-cases,
}
use antelope_firewall.Prelude.Bits.{low_seven, top_bit, or_above}
use antelope_firewall.De.{parsed, u32_mod, shifted_group, varuint_loop, parse_varuint}
use antelope_firewall.De.Packing.{pack_groups, pack_varuint, IsU32}
use antelope_firewall.De.RoundTrip.Reading.{Reads}

-- The group of a byte, shifted to a place where it fits 32 bits.
shifted_group_lem :
    (x g bit : ℕ)
    → x < 256
    → g ≡ x % 128
    → bit ≤ 28
    → g * 2 ^ bit < 2 ^ 32
    → shifted_group x bit ≡ g * 2 ^ bit
shifted_group_lem x g bit byte e le fits =
    let b : bit % 32 ≡ bit = omega arith in
    let m : bit_and x 0x7f ≡ g = low_seven x byte ∙ sym e in
    ap (λ (s : ℕ). bit_and x 0x7f * 2 ^ s % u32_mod) b
    ∙ ap (λ (c : ℕ). c * 2 ^ bit % u32_mod) m
    ∙ omega arith

-- The last round.
varuint_loop-last :
    (w value bit : ℕ)
    → w < 128
    → value < 2 ^ bit
    → value + w * 2 ^ bit < 2 ^ 32
    → bit ≤ 28
    → Reads (varuint_loop value bit) (w ∷ []) (value + w * 2 ^ bit)
unfolding varuint_loop
varuint_loop-last w value bit small below fits le rest =
    let group = shifted_group_lem w w bit (omega arith) (omega arith) le (omega arith) in
    let joined : bit_or value (shifted_group w bit) ≡ value + w * 2 ^ bit =
      ap (bit_or value) group ∙ or_above bit value w below in
    let top : bit_and w 0x80 ≡ 0 = omega (arith, top_bit w (omega arith)) in rw (joined, top) refl

-- Any other round.
varuint_loop-inner :
    (g value bit : ℕ) (input : List ℕ)
    → g < 128
    → value < 2 ^ bit
    → value + g * 2 ^ bit < 2 ^ 32
    → bit ≤ 28
    → varuint_loop value bit ((g + 128) ∷ input)
      ≡ varuint_loop (value + g * 2 ^ bit) (bit + 7) input
unfolding varuint_loop
varuint_loop-inner g value bit input small below fits le =
    let group = shifted_group_lem (g + 128) g bit (omega arith) (omega arith) le (omega arith) in
    let joined : bit_or value (shifted_group (g + 128) bit) ≡ value + g * 2 ^ bit =
      ap (bit_or value) group ∙ or_above bit value g below in
    let top : bit_and (g + 128) 0x80 ≡ 128 = omega (arith, top_bit (g + 128) (omega arith)) in
    let next : (bit + 7) % u32_mod ≡ bit + 7 = omega arith in rw (joined, top, next) refl

-- The lowest group of a number and the rest of it, at their places.
places : (w bit : ℕ) → w * 2 ^ bit ≡ w % 128 * 2 ^ bit + w / 128 * 2 ^ (bit + 7)
places w bit =
    let p : 2 ^ (bit + 7) ≡ 128 * 2 ^ bit = simp towards_suc (omega arith) in
    omega (arith, ap (λ (d : ℕ). d * 2 ^ bit) (div-add-mod w 128), ap (λ (d : ℕ). w / 128 * d) p)

-- A round with a group and the rounds behind it.
Reads-more :
    (k w value bit : ℕ)
    → 128 ≤ w
    → w < 128 ^ suc (suc k)
    → value < 2 ^ bit
    → value + w * 2 ^ bit < 2 ^ 32
    → bit + 7 * suc k ≤ 28
    → (value + w % 128 * 2 ^ bit < 2 ^ (bit + 7)
        → (value + w % 128 * 2 ^ bit) + w / 128 * 2 ^ (bit + 7) < 2 ^ 32
        → Reads
            (varuint_loop (value + w % 128 * 2 ^ bit) (bit + 7))
            (pack_groups k (w / 128))
            ((value + w % 128 * 2 ^ bit) + w / 128 * 2 ^ (bit + 7)))
    → Reads
        (varuint_loop value bit)
        ((w % 128 + 128) ∷ pack_groups k (w / 128))
        (value + w * 2 ^ bit)
Reads-more k w value bit large small below fits le more rest =
    let g = w % 128 in
    let split = places w bit in
    let seven : 2 ^ (bit + 7) ≡ 128 * 2 ^ bit = simp towards_suc (omega arith) in
    let room : g * 2 ^ bit ≤ 127 * 2 ^ bit = mul-le-mul_right (2 ^ bit) (omega arith) in
    varuint_loop-inner g value bit (pack_groups k (w / 128) ++ rest) (omega arith) below
      (omega (arith, split)) (omega arith)
    ∙ more (omega (arith, seven, room)) (omega (arith, split)) rest
    ∙ ap (λ (v : ℕ). parsed v rest) (omega (arith, split))

Reads-groups :
    (k w value bit : ℕ)
    → w < 128 ^ suc k
    → value < 2 ^ bit
    → value + w * 2 ^ bit < 2 ^ 32
    → bit + 7 * k ≤ 28
    → Reads (varuint_loop value bit) (pack_groups k w) (value + w * 2 ^ bit)
unfolding pack_groups
Reads-groups zero w value bit small below fits le =
    varuint_loop-last w value bit (omega arith) below fits (omega arith)
Reads-groups (suc k) w value bit small below fits le = elim (Bool-cases (ltb w 128)) [
  | inl t ↦ rw t (varuint_loop-last w value bit (ground arith) below fits (omega arith))
  | inr t ↦ rw t (
      Reads-more k w value bit (ground arith) small below fits le (λ lower upper.
        Reads-groups k (w / 128) (value + w % 128 * 2 ^ bit) (bit + 7)
          (omega (arith, pow-suc 128 (suc k))) lower upper (omega arith)))
]

-- A number below 2 ^ 32, as a varuint.
pub Reads-varuint : (v : ℕ) → IsU32 v → Reads parse_varuint (pack_varuint v) v
unfolding parse_varuint
Reads-varuint v lt rest =
    Reads-groups 4 v 0 0 (omega arith) (omega arith) (omega arith) (omega arith) rest
    ∙ ap (λ (n : ℕ). parsed n rest) (omega arith)
