-- ===== src/De/Names.antt =====
-- Account names, `name_to_string` of antelope-firewall-lib/src/de.rs: thirteen symbols of five bits,
-- the last of four, from the highest bit of a u64 down.
pub mod Value
use Prim.Native.Nat.{bit_and, bit_or}
use mathlib.Core.WellFounded.{Acc}
use antelope_firewall.Prelude.{
  ℕ, zero, suc, ◌+◌, ◌-◌, ◌*◌, ◌/◌, ◌%◌, ◌^◌, ◌≤◌, ◌<◌, none, some, List, [], ◌∷◌, arith, Text, leb,
  eqb, if◌then◌else◌, get_elem?,
}
use antelope_firewall.De.{u32_mod}

-- `to_le_bytes`.
unfoldable pub to_le_bytes : ℕ → ℕ → List ℕ
to_le_bytes zero n = []
to_le_bytes (suc k) n = n % 256 ∷ to_le_bytes k (n / 256)

-- `bytes[i]`; the loop stays within the eight bytes.
abbrev pub byte_at : List ℕ → ℕ → ℕ
byte_at bytes i = elim (get_elem? bytes i) [ none ↦ 0 | some b ↦ b ]

-- `((bytes[bit / 8]) as u32 >> (bit % 8)) & 1`.
abbrev pub bit_at : List ℕ → ℕ → ℕ
bit_at bytes bit = bit_and (byte_at bytes (bit / 8) / 2 ^ (bit % 8)) 1

-- The inner loop: rounds, the symbol so far, and one more than the bit.
unfoldable pub read_bits : List ℕ → ℕ → ℕ → ℕ → ℕ × ℕ
read_bits bytes zero c left = (c, left)
read_bits bytes (suc k) c zero = read_bits bytes k c zero
read_bits bytes (suc k) c (suc bit) =
    read_bits bytes k (bit_or (c * 2 % u32_mod) (bit_at bytes bit)) bit

abbrev pub dot : ℕ
dot = b'.'

unfoldable pub symbol : ℕ → ℕ
symbol c = if leb 6 c then c + 97 - 6 else if leb 1 c then c + 49 - 1 else dot

read_bits_le : (bytes : List ℕ) (k c left : ℕ) → (read_bits bytes k c left).1 ≤ left
unfolding read_bits
read_bits_le bytes zero c left = omega arith
read_bits_le bytes (suc k) c zero = read_bits_le bytes k c zero
read_bits_le bytes (suc k) c (suc bit) =
    omega (arith, read_bits_le bytes k (bit_or (c * 2 % u32_mod) (bit_at bytes bit)) bit)

-- Each round of the outer loop takes a bit at least.
pub read_bits-lt : (bytes : List ℕ) (bit : ℕ) → (read_bits bytes 5 0 (suc bit)).1 < suc bit
unfolding read_bits
read_bits-lt bytes bit = omega (arith, read_bits_le bytes 4 (bit_or 0 (bit_at bytes bit)) bit)

-- The outer loop, by the bits that are left.
unfoldable pub name_loop : List ℕ → (left : ℕ) → Acc ◌<◌ left → Text
name_loop bytes zero w = []
name_loop bytes (suc bit) (Acc.intro _ smaller) =
    let (c, left) = read_bits bytes 5 0 (suc bit) in
    symbol c ∷ name_loop bytes left (smaller left (read_bits-lt bytes bit))

-- `trim_end_matches(".")`.
unfoldable pub trim_dots : Text → Text
trim_dots [] = []
trim_dots (c ∷ cs) =
    let rest = trim_dots cs in
    elim rest [ [] ↦ (if eqb c dot then [] else c ∷ []) | d ∷ ds ↦ c ∷ d ∷ ds ]

acc_lt : (bound n : ℕ) → n < bound → Acc ◌<◌ n
acc_lt zero n lt = absurd (omega arith)
acc_lt (suc bound) n lt = Acc.intro n λ m smaller. acc_lt bound m (omega arith)

unfoldable pub name_to_string : ℕ → Text
unfolding acc_lt
name_to_string n = trim_dots (name_loop (to_le_bytes 8 n) 64 (acc_lt 65 64 (omega arith)))
