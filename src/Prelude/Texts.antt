-- ===== src/Prelude/Texts.antt =====
-- Text as the list of its characters' code points, and what Rust's `str` offers over it.
use Prim.Native.Nat.{ℕ}
use Prim.Native.Char.{code}
use Prim.Native.String.{String}
use mathlib.Core.Path.{◌≡◌, refl}
use mathlib.Core.Logic.{◌↔◌}
use mathlib.Core.Bool.{Bool, true, false, ◌&&◌}
use mathlib.Core.List.{List, [], ◌∷◌}
use native.Mathlib.Omega.{arith}
use antelope_firewall.Prelude.Tests.{eqb}
use antelope_firewall.Prelude.Lists.{any}

abbrev pub Text : Type 0
Text = List ℕ

-- A literal's code points.
abbrev pub codes : String → Text
codes String.[] = []
codes (String.◌∷◌ c s) = code c ∷ codes s

infix 50 ◌==◌
unfoldable pub ◌==◌ : Text → Text → Bool
[] == [] = true
[] == (b ∷ bs) = false
(a ∷ as') == [] = false
(a ∷ as') == (b ∷ bs) = eqb a b && (as' == bs)

pub eq_of_text : (a b : Text) → (a == b) ≡ true → a ≡ b
unfolding ◌==◌
eq_of_text [] [] h = refl
eq_of_text [] (b ∷ bs) h = cc
eq_of_text (a ∷ as') [] h = cc
eq_of_text (a ∷ as') (b ∷ bs) h = ground (arith, eq_of_text as' bs)

pub text_eq_refl : (a : Text) → (a == a) ≡ true
unfolding ◌==◌
text_eq_refl [] = refl
text_eq_refl (a ∷ as') = ground (arith, text_eq_refl as')

pub text_eq_iff : (a b : Text) → ((a == b) ≡ true) ↔ (a ≡ b)
text_eq_iff a b = (eq_of_text a b, λ e. rw e (text_eq_refl b))

-- `HashSet<String>::contains`, over the set's elements in iteration order.
abbrev pub contains : List Text → Text → Bool
contains s t = any (λ x. x == t) s

-- Every element stands once: what a `HashSet` yields.
abbrev pub Distinct : List Text → Type 0
Distinct [] = Unit
Distinct (x ∷ xs) = (contains xs x ≡ false) × Distinct xs
