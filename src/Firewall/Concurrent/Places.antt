-- ===== src/Firewall/Concurrent/Places.antt =====
-- Reading and writing the place of a list behind those that were passed.
use antelope_firewall.Prelude.{
  ℕ, zero, suc, ◌≡◌, refl, sym, ap, ◌∙◌, subst, none, some, List, [], ◌∷◌, ◌++◌, map, arith, length,
  get_elem?, All,
}
use antelope_firewall.Firewall.Concurrent.{set}

pub get_elem?-append :
    {A : Type 0} (xs ys : List A) (x : A) → get_elem? (xs ++ x ∷ ys) (length xs) ≡ some x
get_elem?-append [] ys x = refl
get_elem?-append (y ∷ xs) ys x = get_elem?-append xs ys x

pub get_elem?-end : {A : Type 0} (xs : List A) → get_elem? (xs ++ []) (length xs) ≡ none
get_elem?-end [] = refl
get_elem?-end (y ∷ xs) = get_elem?-end xs

pub set-append :
    {A : Type 0} (xs ys : List A) (x y : A) → set (xs ++ x ∷ ys) (length xs) y ≡ xs ++ y ∷ ys
set-append [] ys x y = refl
set-append (z ∷ xs) ys x y = ap (λ t. z ∷ t) (set-append xs ys x y)

-- One more was passed.
pub snoc : {A : Type 0} (xs ys : List A) (x : A) → (xs ++ x ∷ []) ++ ys ≡ xs ++ x ∷ ys
snoc [] ys x = refl
snoc (z ∷ xs) ys x = ap (λ t. z ∷ t) (snoc xs ys x)

pub length-snoc : {A : Type 0} (xs : List A) (x : A) → length (xs ++ x ∷ []) ≡ suc (length xs)
length-snoc [] x = refl
length-snoc (z ∷ xs) x = ap suc (length-snoc xs x)

-- What the new element shares with the old, the lists share.
pub map-set :
    {A : Type 0} {B : Type 0} (g : A → B) (xs : List A) (k : ℕ) (x y : A)
    → get_elem? xs k ≡ some x
    → g y ≡ g x
    → map g (set xs k y) ≡ map g xs
map-set g [] k x y e same = refl
map-set g (z ∷ xs) zero x y e same =
    let first : z ≡ x = ground (arith, e) in ap (λ b. b ∷ map g xs) (same ∙ sym (ap g first))
map-set g (z ∷ xs) (suc k) x y e same = ap (λ t. g z ∷ t) (map-set g xs k x y e same)

pub get_elem?-map :
    {A : Type 0} {B : Type 0} (g : A → B) (xs : List A) (k : ℕ) (x : A)
    → get_elem? xs k ≡ some x
    → get_elem? (map g xs) k ≡ some (g x)
get_elem?-map g [] k x e = ground (arith, e)
get_elem?-map g (z ∷ xs) zero x e =
    let same : z ≡ x = ground (arith, e) in ap (λ t. some (g t)) same
get_elem?-map g (z ∷ xs) (suc k) x e = get_elem?-map g xs k x e

pub get_elem?-map-none :
    {A : Type 0} {B : Type 0} (g : A → B) (xs : List A) (k : ℕ)
    → get_elem? xs k ≡ none
    → get_elem? (map g xs) k ≡ none
get_elem?-map-none g [] k e = refl
get_elem?-map-none g (z ∷ xs) zero e = ground (arith, e)
get_elem?-map-none g (z ∷ xs) (suc k) e = get_elem?-map-none g xs k e

-- The elements before a place.
abbrev pub Before : {A : Type 0} → (A → Type 0) → List A → ℕ → Type 0
Before P [] k = Unit
Before P (x ∷ xs) zero = Unit
Before P (x ∷ xs) (suc k) = P x × Before P xs k

pub Before-zero : {A : Type 0} (P : A → Type 0) (xs : List A) → Before P xs 0
Before-zero P [] = tt
Before-zero P (x ∷ xs) = tt

pub Before-suc :
    {A : Type 0} (P : A → Type 0) (xs : List A) (k : ℕ) (x : A)
    → get_elem? xs k ≡ some x
    → P x
    → Before P xs k
    → Before P xs (suc k)
Before-suc P [] k x e p b = tt
Before-suc P (z ∷ []) zero x e p b = (subst P (sym (ground (arith, e))) p, tt)
Before-suc P (z ∷ y ∷ xs) zero x e p b = (subst P (sym (ground (arith, e))) p, tt)
Before-suc P (z ∷ xs) (suc k) x e p b = (b.0, Before-suc P xs k x e p b.1)

pub Before-All :
    {A : Type 0} (P : A → Type 0) (xs : List A) (k : ℕ)
    → get_elem? xs k ≡ none
    → Before P xs k
    → All P xs
Before-All P [] k e b = tt
Before-All P (z ∷ xs) zero e b = ground (arith, e)
Before-All P (z ∷ xs) (suc k) e b = (b.0, Before-All P xs k e b.1)

-- One element in the middle is another.
pub All-replace :
    {A : Type 0} (P : A → Type 0) (xs ys : List A) (x y : A)
    → (P x → P y)
    → All P (xs ++ x ∷ ys)
    → All P (xs ++ y ∷ ys)
All-replace P [] ys x y g a = (g a.0, a.1)
All-replace P (z ∷ xs) ys x y g a = (a.0, All-replace P xs ys x y g a.1)
