-- ===== src/De/RoundTrip/Reading.antt =====
-- What it means that a parser of antelope-firewall-lib/src/de.rs reads a value, and how the parsers
-- compose.

use mathlib.Core.List.{append_assoc}
use native.Mathlib.Nat.{pow-suc}
use antelope_firewall.Prelude.{
  ℕ, zero, suc, ◌/◌, ◌^◌, ◌<◌, ◌≡◌, refl, sym, ap, ◌∙◌, List, [], ◌∷◌, ◌++◌, arith, length, take,
  drop, All, length-append,
}
use antelope_firewall.De.{
  Parser, parsed, return, ◌>>=◌, next_bytes, from_le_bytes, read_le, next_element_seed, visit_seq,
  next_field,
}
use antelope_firewall.De.Names.{to_le_bytes}
use antelope_firewall.De.Packing.{pack_all}

-- A parser reads a value off its bytes and leaves what follows.
abbrev pub Reads : {A : Type 0} → Parser A → List ℕ → A → Type 0
Reads p bytes a = (rest : List ℕ) → p (bytes ++ rest) ≡ parsed a rest

pub Reads-bind :
    {A B : Type 0} (p : Parser A) (f : A → Parser B) (xs ys : List ℕ) {a : A} {b : B}
    → Reads p xs a
    → Reads (f a) ys b
    → Reads (p >>= f) (xs ++ ys) b
Reads-bind p f xs ys {a} rp rf rest = rw (append_assoc xs ys rest, rp (ys ++ rest)) (rf rest)

pub Reads-return :
    {A B : Type 0} (p : Parser A) (f : A → B) (xs : List ℕ) {a : A}
    → Reads p xs a
    → Reads (p >>= λ x. return (f x)) xs (f a)
Reads-return p f xs {a} rp rest = rw (rp rest) refl

pub Reads-next_field :
    {A : Type 0} (k : ℕ) (p : Parser A) (xs : List ℕ) {a : A}
    → Reads p xs a
    → Reads (next_field (suc k) p) xs a
unfolding next_field next_element_seed
Reads-next_field k p xs rp rest = rw (rp rest) refl

pub Reads-visit_seq :
    {A : Type 0} (p : Parser A) (pack : A → List ℕ) (as' : List A)
    → All (λ a. Reads p (pack a) a) as'
    → Reads (visit_seq p (length as')) (pack_all pack as') as'
unfolding visit_seq next_element_seed
Reads-visit_seq p pack [] h rest = refl
Reads-visit_seq p pack (a ∷ as') h rest =
    rw
      (
        append_assoc (pack a) (pack_all pack as') rest,
        h.0 (pack_all pack as' ++ rest),
        Reads-visit_seq p pack as' h.1 rest,
      )
      refl

pub length-to_le_bytes : (k n : ℕ) → length (to_le_bytes k n) ≡ k
unfolding to_le_bytes
length-to_le_bytes zero n = refl
length-to_le_bytes (suc k) n = omega (arith, length-to_le_bytes k (n / 256))

pub from_le_bytes-to_le_bytes : (k n : ℕ) → n < 256 ^ k → from_le_bytes (to_le_bytes k n) ≡ n
unfolding to_le_bytes from_le_bytes
from_le_bytes-to_le_bytes zero n lt = omega arith
from_le_bytes-to_le_bytes (suc k) n lt =
    let p = pow-suc 256 k in
    omega (arith, p, from_le_bytes-to_le_bytes k (n / 256) (omega (arith, p)))

pub take-append :
    (xs ys : List ℕ) → (take (length xs) (xs ++ ys) ≡ xs) × (drop (length xs) (xs ++ ys) ≡ ys)
take-append [] ys = (refl, refl)
take-append (x ∷ xs) ys = (ap (λ t. x ∷ t) (take-append xs ys).0, (take-append xs ys).1)

pub Reads-next_bytes : (xs : List ℕ) → Reads (next_bytes (length xs)) xs xs
unfolding next_bytes
Reads-next_bytes xs rest = ground (arith, length-append xs rest, take-append xs rest)

-- An integer of any width.
pub Reads-read_le : (k n : ℕ) → n < 256 ^ k → Reads (read_le k k) (to_le_bytes k n) n
unfolding read_le
Reads-read_le k n lt rest =
    let bytes = to_le_bytes k n in
    let size = length-to_le_bytes k n in
    let got : next_bytes k (bytes ++ rest) ≡ parsed bytes rest =
      ap (λ (c : ℕ). next_bytes c (bytes ++ rest)) (sym size) ∙ Reads-next_bytes bytes rest in
    rw got (ground (arith, size, from_le_bytes-to_le_bytes k n lt))
