-- ===== src/De/Names/Value.antt =====
-- What a name's text stands for, read by the rule of the chain, and that `name_to_string`
-- (antelope-firewall-lib/src/de.rs) writes a text that stands for the number.
use Prim.Native.Nat.{bit_and, bit_or}
use mathlib.Core.WellFounded.{Acc}
use native.Mathlib.Numerals.{towards_suc}
use native.Mathlib.Nat.{pow-suc, div-div-eq-div-mul, div-le_self}
use antelope_firewall.Prelude.{
  ℕ, zero, suc, ◌+◌, ◌-◌, ◌*◌, ◌/◌, ◌%◌, ◌^◌, ◌≤◌, ◌<◌, ◌≡◌, refl, sym, ap, ◌∙◌, inl, inr, ◌&&◌, [],
  ◌∷◌, arith, Text, ltb, leb, eqb, if◌then◌else◌, Bool-cases, List-cases, eqb_iff,
}
use antelope_firewall.Prelude.Bits.{lowest_bit, or_last}
use antelope_firewall.De.{u32_mod}
use antelope_firewall.De.Names.{
  to_le_bytes, byte_at, bit_at, read_bits, dot, symbol, read_bits-lt, name_loop, trim_dots,
  name_to_string,
}

-- `a` to `z` are 6 to 31, `1` to `5` are 1 to 5, and all else is 0.
unfoldable pub symbol_value : ℕ → ℕ
symbol_value c =
    if leb b'a' c && leb c b'z'
    then c - 97 + 6
    else if leb b'1' c && leb c b'5'
    then c - 49 + 1
    else 0

-- Symbols of five bits, and a last one of four; a text that ends early goes on with dots.
unfoldable pub read_symbols : ℕ → ℕ → Text → ℕ
read_symbols zero value [] = value * 16
read_symbols zero value (c ∷ cs) = value * 16 + symbol_value c
read_symbols (suc k) value [] = read_symbols k (value * 32) []
read_symbols (suc k) value (c ∷ cs) = read_symbols k (value * 32 + symbol_value c) cs

unfoldable pub name_value : Text → ℕ
name_value text = read_symbols 12 0 text

symbol_value-symbol : (c : ℕ) → c < 32 → symbol_value (symbol c) ≡ c
unfolding symbol_value symbol
symbol_value-symbol c lt = ground arith

symbol_value-dot : symbol_value dot ≡ 0
unfolding symbol_value
symbol_value-dot = refl

-- Trailing dots stand for nothing.
read_symbols-trim_dots :
    (k value : ℕ) (text : Text) → read_symbols k value (trim_dots text) ≡ read_symbols k value text
unfolding trim_dots read_symbols
read_symbols-trim_dots k value [] = refl
read_symbols-trim_dots zero value (c ∷ cs) = elim (List-cases (trim_dots cs)) [
  | inl e ↦ elim (Bool-cases (eqb c dot)) [
    | inl t ↦ rw (e, t) (omega (arith, ap symbol_value ((eqb_iff c dot).0 t), symbol_value-dot))
    | inr t ↦ rw (e, t) refl
  ]
  | inr (d, ds, e) ↦ rw e refl
]
read_symbols-trim_dots (suc k) value (c ∷ cs) =
    let next = value * 32 + symbol_value c in
    let rest = read_symbols-trim_dots k next cs in
    elim (List-cases (trim_dots cs)) [
      | inl e ↦ elim (Bool-cases (eqb c dot)) [
        | inl t ↦
            let same : value * 32 ≡ next =
              omega (arith, ap symbol_value ((eqb_iff c dot).0 t), symbol_value-dot) in
            rw (e, t) (ap (λ (v : ℕ). read_symbols k v []) same ∙ (rw e at rest))
        | inr t ↦ rw (e, t) (rw e at rest)
      ]
      | inr (d, ds, e) ↦ rw e (rw e at rest)
    ]

low_byte : (n i : ℕ) → i < 8 → n % 256 / 2 ^ i % 2 ≡ n / 2 ^ i % 2
low_byte n zero lt = omega arith
low_byte n (suc zero) lt = omega arith
low_byte n (suc (suc zero)) lt = omega arith
low_byte n (suc (suc (suc zero))) lt = omega arith
low_byte n (suc (suc (suc (suc zero)))) lt = omega arith
low_byte n (suc (suc (suc (suc (suc zero))))) lt = omega arith
low_byte n (suc (suc (suc (suc (suc (suc zero)))))) lt = omega arith
low_byte n (suc (suc (suc (suc (suc (suc (suc zero))))))) lt = omega arith
low_byte n (suc (suc (suc (suc (suc (suc (suc (suc i)))))))) lt = absurd (omega arith)

later_byte : (n i : ℕ) → n / 256 / 2 ^ i ≡ n / 2 ^ (i + 8)
later_byte n i = div-div-eq-div-mul n 256 (2 ^ i) ∙ ap (λ (d : ℕ). n / d) (sym (pow-add-eight i))
  where
    pow-add-eight : (j : ℕ) → 2 ^ (j + 8) ≡ 256 * 2 ^ j
    pow-add-eight j = simp towards_suc (omega arith)

bit_at-to_le_bytes : (k n i : ℕ) → i < 8 * k → bit_at (to_le_bytes k n) i ≡ n / 2 ^ i % 2
unfolding to_le_bytes
bit_at-to_le_bytes zero n i lt = absurd (omega arith)
bit_at-to_le_bytes (suc k) n i lt = elim (Bool-cases (ltb i 8)) [
  | inl first ↦
      let q : i / 8 ≡ 0 = ground arith in
      let r : i % 8 ≡ i = ground arith in
      let small : n % 256 / 2 ^ (i % 8) < 256 =
        omega (arith, div-le_self (n % 256) (2 ^ (i % 8))) in
      ap (λ (j : ℕ). bit_and (byte_at (to_le_bytes (suc k) n) j / 2 ^ (i % 8)) 1) q
      ∙ lowest_bit (n % 256 / 2 ^ (i % 8)) small
      ∙ ap (λ (j : ℕ). n % 256 / 2 ^ j % 2) r
      ∙ low_byte n i (ground arith)
  | inr later ↦
      let j = i - 8 in
      let e : i ≡ j + 8 = ground arith in
      let q : i / 8 ≡ suc (j / 8) = omega arith in
      let r : i % 8 ≡ j % 8 = omega arith in
      ap (λ (t : ℕ). bit_and (byte_at (to_le_bytes (suc k) n) t / 2 ^ (i % 8)) 1) q
      ∙ ap (λ (t : ℕ). bit_and (byte_at (to_le_bytes k (n / 256)) (j / 8) / 2 ^ t) 1) r
      ∙ bit_at-to_le_bytes k (n / 256) j (omega arith)
      ∙ ap (λ (t : ℕ). t % 2) (later_byte n j ∙ ap (λ (t : ℕ). n / 2 ^ t) (sym e))
]

-- A round of the inner loop.
read_bits_round :
    (n k c left m : ℕ)
    → left ≡ suc m
    → m < 64
    → c < 32
    → read_bits (to_le_bytes 8 n) (suc k) c left
      ≡ read_bits (to_le_bytes 8 n) k (c * 2 + n / 2 ^ m % 2) m
unfolding read_bits
read_bits_round n k c zero m e lt small = absurd (omega arith)
read_bits_round n k c (suc bit) m e lt small =
    let same : bit ≡ m = omega arith in
    let digit = bit_at-to_le_bytes 8 n m (omega arith) in
    let b = bit_at (to_le_bytes 8 n) m in
    let value : bit_or (c * 2 % u32_mod) b ≡ c * 2 + n / 2 ^ m % 2 =
      ap (λ (t : ℕ). bit_or t b) (omega arith)
      ∙ or_last c b small (omega (arith, digit))
      ∙ ap (λ (t : ℕ). c * 2 + t) digit in
    ap
      (λ (t : ℕ).
        read_bits (to_le_bytes 8 n) k (bit_or (c * 2 % u32_mod) (bit_at (to_le_bytes 8 n) t)) t)
      same
    ∙ ap (λ (t : ℕ). read_bits (to_le_bytes 8 n) k t m) value

halved : (n m : ℕ) → n / 2 ^ suc m ≡ n / 2 ^ m / 2
halved n m = ap (λ (d : ℕ). n / d) (pow-suc 2 m) ∙ sym (div-div-eq-div-mul n (2 ^ m) 2)

-- Four and five rounds of it.
four_bits :
    (n k c left m : ℕ)
    → left ≡ m + 4
    → m + 4 ≤ 64
    → c < 2
    → read_bits (to_le_bytes 8 n) (suc (suc (suc (suc k)))) c left
      ≡ read_bits (to_le_bytes 8 n) k (c * 16 + n / 2 ^ m % 16) m
four_bits n k c left m e le small =
    let bits = read_bits (to_le_bytes 8 n) in
    let b3 = n / 2 ^ suc (suc (suc m)) % 2 in
    let b2 = n / 2 ^ suc (suc m) % 2 in
    let b1 = n / 2 ^ suc m % 2 in
    let b0 = n / 2 ^ m % 2 in
    let value : ((((c * 2 + b3) * 2 + b2) * 2 + b1) * 2 + b0) ≡ c * 16 + n / 2 ^ m % 16 =
      omega (arith, halved n m, halved n (suc m), halved n (suc (suc m))) in
    read_bits_round n (suc (suc (suc k))) c left (suc (suc (suc m))) (omega arith) (omega arith)
      (omega arith)
    ∙ read_bits_round n (suc (suc k)) (c * 2 + b3) (suc (suc (suc m))) (suc (suc m)) refl
        (omega arith) (omega arith)
    ∙ read_bits_round n (suc k) ((c * 2 + b3) * 2 + b2) (suc (suc m)) (suc m) refl (omega arith)
        (omega arith)
    ∙ read_bits_round n k (((c * 2 + b3) * 2 + b2) * 2 + b1) (suc m) m refl (omega arith)
        (omega arith)
    ∙ ap (λ (v : ℕ). bits k v m) value

five_bits :
    (n left m : ℕ)
    → left ≡ m + 5
    → left ≤ 64
    → read_bits (to_le_bytes 8 n) 5 0 left ≡ (n / 2 ^ m % 32, m)
unfolding read_bits
five_bits n left m e le =
    let top = n / 2 ^ (m + 4) % 2 in
    let digit : (0 * 2 + top) * 16 + n / 2 ^ m % 16 ≡ n / 2 ^ m % 32 =
      omega (arith, sixteenth n m) in
    read_bits_round n 4 0 left (m + 4) (omega arith) (omega arith) (omega arith)
    ∙ four_bits n 0 (0 * 2 + top) (m + 4) m refl (omega arith) (omega arith)
    ∙ ap (λ (v : ℕ). (v, m)) digit
  where
    sixteenth : (n m : ℕ) → n / 2 ^ (m + 4) ≡ n / 2 ^ m / 16
    sixteenth n m =
        let p : 2 ^ (m + 4) ≡ 2 ^ m * 16 = simp towards_suc (omega arith) in
        ap (λ (d : ℕ). n / d) p ∙ sym (div-div-eq-div-mul n (2 ^ m) 16)

-- The last symbol has the four lowest bits.
last_bits : (n : ℕ) → read_bits (to_le_bytes 8 n) 5 0 4 ≡ (n % 16, 0)
unfolding read_bits
last_bits n =
    four_bits n 1 0 4 0 refl (omega arith) (omega arith) ∙ ap (λ (v : ℕ). (v, 0)) (omega arith)

shift_five : (n m : ℕ) → n / 2 ^ (m + 5) ≡ n / 2 ^ m / 32
shift_five n m =
    let p : 2 ^ (m + 5) ≡ 2 ^ m * 32 = simp towards_suc (omega arith) in
    ap (λ (d : ℕ). n / d) p ∙ sym (div-div-eq-div-mul n (2 ^ m) 32)

-- What the outer loop writes stands for the bits that it had left, behind those read before.
name_loop-value :
    (n k left value : ℕ) (w : Acc ◌<◌ left)
    → n < 2 ^ 64
    → left ≡ 5 * k + 4
    → left ≤ 64
    → value ≡ n / 2 ^ left
    → read_symbols k value (name_loop (to_le_bytes 8 n) left w) ≡ n
unfolding name_loop read_symbols
name_loop-value n k zero value w lt e le v = absurd (omega arith)
name_loop-value n zero (suc bit) value (Acc.intro _ smaller) lt e le v =
    let four : suc bit ≡ 4 = omega (arith, e) in
    let r = read_bits (to_le_bytes 8 n) 5 0 (suc bit) in
    let last : r.0 ≡ n % 16 =
      ap (λ (l : ℕ). (read_bits (to_le_bytes 8 n) 5 0 l).0) four
      ∙ ap (λ (p : ℕ × ℕ). p.0) (last_bits n) in
    omega (
      arith,
      v,
      ap (λ (l : ℕ). n / 2 ^ l) four,
      last,
      symbol_value-symbol r.0 (omega (arith, last)),
    )
name_loop-value n (suc k) (suc bit) value (Acc.intro _ smaller) lt e le v =
    let m = 5 * k + 4 in
    let r = read_bits (to_le_bytes 8 n) 5 0 (suc bit) in
    let five = five_bits n (suc bit) m (omega arith) le in
    let shifted : suc bit ≡ m + 5 = omega (arith, e) in
    let now : value * 32 + symbol_value (symbol r.0) ≡ n / 2 ^ r.1 = omega (
      arith,
      v,
      ap (λ (l : ℕ). n / 2 ^ l) shifted,
      shift_five n m,
      ap (λ (p : ℕ × ℕ). p.0) five,
      ap (λ (p : ℕ × ℕ). n / 2 ^ p.1) five,
      symbol_value-symbol r.0 (omega (arith, ap (λ (p : ℕ × ℕ). p.0) five)),
    ) in
    name_loop-value n k r.1 (value * 32 + symbol_value (symbol r.0))
      (smaller r.1 (read_bits-lt (to_le_bytes 8 n) bit)) lt (ap (λ (p : ℕ × ℕ). p.1) five)
      (omega (arith, ap (λ (p : ℕ × ℕ). p.1) five)) now

-- The text of a name stands for the number it was made from: no two numbers below 2 ^ 64 have the
-- same text, so a list of account names never confuses two accounts.
pub name_value-name_to_string : (n : ℕ) → n < 2 ^ 64 → name_value (name_to_string n) ≡ n
unfolding name_value name_to_string
name_value-name_to_string n lt =
    read_symbols-trim_dots 12 0 (name_loop (to_le_bytes 8 n) 64 _)
    ∙ name_loop-value n 12 64 0 _ lt refl (omega arith) (omega arith)
