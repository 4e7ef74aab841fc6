-- ===== src/Prelude/Lists.antt =====
-- Lists measured by the native numbers, Boolean searches over them, and the element predicates
-- that the components share.
use Prim.Native.Nat.{ℕ, zero, suc, ◌+◌}
use mathlib.Core.Path.{◌≡◌, refl, ap, sym, ◌∙◌}
use mathlib.Core.Logic.{◌⊎◌, inl, inr}
use mathlib.Core.Bool.{Bool, true, false, ◌&&◌, ◌||◌}
use mathlib.Core.List.{List, [], ◌∷◌, ◌++◌, map}
use mathlib.Core.Option.{Option, none, some}
use native.Mathlib.Omega.{arith}
use antelope_firewall.Prelude.Tests.{Bool-cases, if◌then◌else◌}

module _ {ℓ} {A : Type ℓ} where
  abbrev pub length : List A → ℕ
  length [] = 0
  length (x ∷ xs) = suc (length xs)

  abbrev pub get_elem? : List A → ℕ → Option A
  get_elem? [] i = none
  get_elem? (x ∷ xs) zero = some x
  get_elem? (x ∷ xs) (suc i) = get_elem? xs i

  abbrev pub take : ℕ → List A → List A
  take zero xs = []
  take (suc n) [] = []
  take (suc n) (x ∷ xs) = x ∷ take n xs

  abbrev pub drop : ℕ → List A → List A
  drop zero xs = xs
  drop (suc n) [] = []
  drop (suc n) (x ∷ xs) = drop n xs

  -- `Iterator::filter`, `any`, `all` and `find` with a Boolean test.
  abbrev pub keep : (A → Bool) → List A → List A
  keep p [] = []
  keep p (x ∷ xs) = let rest = keep p xs in if p x then x ∷ rest else rest

  abbrev pub any : (A → Bool) → List A → Bool
  any p [] = false
  any p (x ∷ xs) = p x || any p xs

  abbrev pub all : (A → Bool) → List A → Bool
  all p [] = true
  all p (x ∷ xs) = p x && all p xs

  abbrev pub find : (A → Bool) → List A → Option A
  find p [] = none
  find p (x ∷ xs) = if p x then some x else find p xs

  abbrev pub All {κ} : (A → Type κ) → List A → Type κ
  All Q [] = Unit
  All Q (e ∷ rest) = Q e × All Q rest

-- An element stands in a list: the witness is its place.
abbrev pub In : {A : Type 0} → A → List A → Type 0
In a [] = ⊥
In a (x ∷ xs) = (a ≡ x) ⊎ In a xs

module _ {ℓ} {A : Type ℓ} where
  pub length-append : (xs ys : List A) → length (xs ++ ys) ≡ length xs + length ys
  length-append [] ys = omega arith
  length-append (x ∷ xs) ys = omega (arith, length-append xs ys)

module _ {A : Type 0} where
  -- What `find` returns stands in the list and passes the test.
  pub find-In : (p : A → Bool) (xs : List A) {a : A} → find p xs ≡ some a → In a xs × (p a ≡ true)
  find-In p [] e = cc
  find-In p (x ∷ xs) {a} e = elim (Bool-cases (p x)) [
    | inl hit ↦ ground (arith, ap p (found-eq hit))
    | inr miss ↦ let r = find-In p xs {a = a} (rw miss at e) in (inr r.0, r.1)
  ]
    where
      found-eq : p x ≡ true → x ≡ a
      found-eq hit = ground arith

  pub All-In {κ} : (P : A → Type κ) (xs : List A) {a : A} → All P xs → In a xs → P a
  All-In P [] h m = absurd m
  All-In P (x ∷ xs) h (inl e) = rw e h.0
  All-In P (x ∷ xs) h (inr m) = All-In P xs h.1 m

module _ {ℓ κ} {A : Type ℓ} where
  pub All-append :
      (Q : A → Type κ) (front back : List A) → All Q front → All Q back → All Q (front ++ back)
  All-append Q [] back hf hb = hb
  All-append Q (e ∷ front) back (he, hf) hb = (he, All-append Q front back hf hb)

  pub All-keep : (P : A → Type κ) (p : A → Bool) (xs : List A) → All P xs → All P (keep p xs)
  All-keep P p [] h = tt
  All-keep P p (x ∷ xs) h = elim (Bool-cases (p x)) [
    | inl e ↦ rw e (h.0, All-keep P p xs h.1)
    | inr e ↦ rw e (All-keep P p xs h.1)
  ]

  pub All-mono {μ} :
      (P : A → Type κ) (Q : A → Type μ) (xs : List A) → ((a : A) → P a → Q a) → All P xs → All Q xs
  All-mono P Q [] f h = tt
  All-mono P Q (x ∷ xs) f h = (f x h.0, All-mono P Q xs f h.1)

  pub All-map {μ} :
      {B : Type μ} (P : A → Type κ) (f : B → A) (xs : List B)
      → All (λ b. P (f b)) xs
      → All P (map f xs)
  All-map P f [] h = tt
  All-map P f (x ∷ xs) h = (h.0, All-map P f xs h.1)

-- The elements that `keep` leaves are those that pass the test.
pub In-keep :
    {A : Type 0} (p : A → Bool) (xs : List A) {a : A} → In a xs → p a ≡ true → In a (keep p xs)
In-keep p [] m e = elim m [ ]
In-keep p (x ∷ xs) {a} (inl q) e = rw (ap p (sym q) ∙ e) (inl q)
In-keep p (x ∷ xs) {a} (inr m) e = elim (Bool-cases (p x)) [
  | inl t ↦ rw t (inr (In-keep p xs m e))
  | inr f ↦ rw f (In-keep p xs m e)
]

head_or_tail :
    {A : Type 0} (p : A → Bool) (x : A) (xs : List A) {a : A}
    → p x ≡ true
    → In a (x ∷ keep p xs)
    → (In a (keep p xs) → In a xs × (p a ≡ true))
    → In a (x ∷ xs) × (p a ≡ true)
head_or_tail p x xs t (inl q) rest = (inl q, ap p q ∙ t)
head_or_tail p x xs t (inr m) rest = let r = rest m in (inr r.0, r.1)

pub keep-In :
    {A : Type 0} (p : A → Bool) (xs : List A) {a : A} → In a (keep p xs) → In a xs × (p a ≡ true)
keep-In p [] m = elim m [ ]
keep-In p (x ∷ xs) {a} m = elim (Bool-cases (p x)) [
  | inl t ↦ head_or_tail p x xs t (rw t at m) (λ k. keep-In p xs k)
  | inr f ↦ let r = keep-In p xs {a = a} (rw f at m) in (inr r.0, r.1)
]

pub All-of-In {κ} :
    {A : Type 0} (P : A → Type κ) (xs : List A) → ((x : A) → In x xs → P x) → All P xs
All-of-In P [] f = tt
All-of-In P (x ∷ xs) f = (f x (inl refl), All-of-In P xs (λ y m. f y (inr m)))

pub List-cases {ℓ} :
    {A : Type ℓ} (xs : List A) → (xs ≡ []) ⊎ ((x : A) × (rest : List A) × (xs ≡ x ∷ rest))
List-cases [] = inl refl
List-cases (x ∷ rest) = inr (x, rest, refl)
