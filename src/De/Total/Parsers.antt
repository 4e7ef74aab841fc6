-- ===== src/De/Total/Parsers.antt =====
-- What is expected of every parser of antelope-firewall-lib/src/de.rs on bytes, and its integers and
-- sequences.
use Prim.{⊥}
use Prim.Native.Nat.{bit_and, bit_or}
use native.Mathlib.Nat.{pow-suc}
use antelope_firewall.Prelude.{
  ℕ, zero, suc, ◌+◌, ◌%◌, ◌^◌, ◌≤◌, ◌<◌, ◌≡◌, refl, ap, subst, ◌⊎◌, inl, inr, true, List, [], ◌∷◌,
  arith, ltb, eqb, length, take, drop, All, Bool-cases,
}
use antelope_firewall.Prelude.Bits.{or-lt}
use antelope_firewall.De.{
  eof, Outcome, parsed, failed, panicked, Parser, return, ◌>>=◌, next_byte, next_bytes,
  from_le_bytes, read_le, u32_mod, shifted_group, varuint_loop, parse_varuint, next_element_seed,
  visit_seq, next_field,
}
use antelope_firewall.De.Packing.{IsU32, IsByte}

-- What is expected of the outcome on bytes: a value with a property and bytes that are left, or the
-- end of the input.
abbrev pub Sound : {A : Type 0} → (A → Type 0) → Outcome A → Type 0
Sound P (parsed a rest) = P a × All IsByte rest
Sound P (failed e) = e ≡ eof
Sound P panicked = ⊥

abbrev pub Safe : {A : Type 0} → (A → Type 0) → Parser A → Type 0
Safe P p = (input : List ℕ) → All IsByte input → Sound P (p input)

pub Sound-cases :
    {A : Type 0} (P : A → Type 0) (o : Outcome A)
    → Sound P o
    → ((a : A) × (rest : List ℕ) × (o ≡ parsed a rest) × P a × All IsByte rest) ⊎ (o ≡ failed eof)
Sound-cases P (parsed a rest) h = inl (a, rest, refl, h.0, h.1)
Sound-cases P (failed e) h = inr (ap failed h)
Sound-cases P panicked h = absurd h

pub Safe-bind :
    {A B : Type 0} (P : A → Type 0) (Q : B → Type 0) (p : Parser A) (f : A → Parser B)
    → Safe P p
    → ((a : A) → P a → Safe Q (f a))
    → Safe Q (p >>= f)
Safe-bind P Q p f sp sf input bytes = elim (Sound-cases P (p input) (sp input bytes)) [
  | inl (a, rest, e, h, left) ↦ rw e (sf a h rest left)
  | inr e ↦ rw e refl
]

pub Safe-return : {A : Type 0} (P : A → Type 0) (a : A) → P a → Safe P (return a)
Safe-return P a h input bytes = (h, bytes)

pub Safe-next_field :
    {A : Type 0} (P : A → Type 0) (k : ℕ) (p : Parser A) → Safe P p → Safe P (next_field (suc k) p)
unfolding next_field next_element_seed
Safe-next_field P k p sp input bytes = elim (Sound-cases P (p input) (sp input bytes)) [
  | inl (a, rest, e, h, left) ↦ rw e (h, left)
  | inr e ↦ rw e refl
]

pub Safe-next_byte : Safe IsByte next_byte
unfolding next_byte
Safe-next_byte [] h = refl
Safe-next_byte (b ∷ bs) h = h

-- What `next_bytes` gives has the length asked for, and `read_le` copies it into an array of that.
take-All : (n : ℕ) (xs : List ℕ) → All IsByte xs → All IsByte (take n xs) × All IsByte (drop n xs)
take-All zero xs h = (tt, h)
take-All (suc n) [] h = (tt, tt)
take-All (suc n) (x ∷ xs) h = ((h.0, (take-All n xs h.1).0), (take-All n xs h.1).1)

length-take : (n : ℕ) (xs : List ℕ) → n ≤ length xs → length (take n xs) ≡ n
length-take zero xs le = refl
length-take (suc n) [] le = absurd (omega arith)
length-take (suc n) (x ∷ xs) le = ap suc (length-take n xs (omega arith))

from_le_bytes-lt : (xs : List ℕ) → All IsByte xs → from_le_bytes xs < 256 ^ length xs
unfolding from_le_bytes
from_le_bytes-lt [] h = omega arith
from_le_bytes-lt (x ∷ xs) h = omega (arith, h.0, from_le_bytes-lt xs h.1, pow-suc 256 (length xs))

pub Safe-read_le : (k : ℕ) → Safe (λ n. n < 256 ^ k) (read_le k k)
unfolding read_le next_bytes
Safe-read_le k input h = elim (Bool-cases (ltb (length input) k)) [
  | inl t ↦ rw t refl
  | inr t ↦
      let size = length-take k input (ground arith) in
      let same : eqb (length (take k input)) k ≡ true = ground (arith, size) in
      let small : from_le_bytes (take k input) < 256 ^ k =
        subst (λ (n : ℕ). from_le_bytes (take k input) < 256 ^ n) size
          (from_le_bytes-lt (take k input) (take-All k input h).0) in
      rw (t, same) (small, (take-All k input h).1)
]

shifted_group-lt : (x bit : ℕ) → shifted_group x bit < 2 ^ 32
shifted_group-lt x bit = omega arith

Safe-varuint_loop : (value bit : ℕ) → value < 2 ^ 32 → Safe IsU32 (varuint_loop value bit)
unfolding varuint_loop
Safe-varuint_loop value bit lt [] h = refl
Safe-varuint_loop value bit lt (x ∷ input) h =
    let value' = bit_or value (shifted_group x bit) in
    let lt' = or-lt 32 value (shifted_group x bit) lt (shifted_group-lt x bit) in
    elim (Bool-cases (eqb (bit_and x 0x80) 0)) [
      | inl t ↦ rw t (lt', h.1)
      | inr t ↦ rw t (Safe-varuint_loop value' ((bit + 7) % u32_mod) lt' input h.1)
    ]

pub Safe-parse_varuint : Safe IsU32 parse_varuint
unfolding parse_varuint
Safe-parse_varuint = Safe-varuint_loop 0 0 (omega arith)

pub Safe-visit_seq :
    {A : Type 0} (P : A → Type 0) (p : Parser A) (n : ℕ)
    → Safe P p
    → Safe (λ as'. (length as' ≡ n) × All P as') (visit_seq p n)
unfolding visit_seq next_element_seed
Safe-visit_seq P p zero sp input h = ((refl, tt), h)
Safe-visit_seq P p (suc n) sp input h = elim (Sound-cases P (p input) (sp input h)) [
  | inr e ↦ rw e refl
  | inl (a, rest, e, pa, left) ↦
      elim (Sound-cases _ (visit_seq p n rest) (Safe-visit_seq P p n sp rest left)) [
        | inr e' ↦ rw (e, e') refl
        | inl (as', rest', e', (len, each), left') ↦ rw (e, e') ((ap suc len, (pa, each)), left')
      ]
]
