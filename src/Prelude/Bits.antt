-- ===== src/Prelude/Bits.antt =====
-- The bit operations of Rust's integers that the program uses, as arithmetic.
use Prim.Native.Nat.{
  ℕ, zero, suc, ◌+◌, ◌*◌, ◌/◌, ◌%◌, ◌^◌, ◌≤◌, ◌<◌, max, digits, bit_and, bit_or, bit_or-bitwise,
}
use mathlib.Core.Path.{◌≡◌, refl, ap}
use mathlib.Core.Bool.{Bool, true, ◌&&◌}
use native.Mathlib.Nat.{pow-suc}
use native.Mathlib.Omega.{arith}
use antelope_firewall.Prelude.Tests.{eqb}

-- Two functions agree on every number below a bound, by evaluation.
agree : (ℕ → ℕ) → (ℕ → ℕ) → ℕ → Bool
agree f g zero = true
agree f g (suc n) = eqb (f n) (g n) && agree f g n

agree_below : (f g : ℕ → ℕ) (n x : ℕ) → agree f g n ≡ true → x < n → f x ≡ g x
unfolding agree
agree_below f g zero x t lt = absurd (omega arith)
agree_below f g (suc n) x t lt = ground (arith, agree_below f g n x, ap f, ap g)

pub low_seven : (x : ℕ) → x < 256 → bit_and x 0x7f ≡ x % 128
unfolding agree
low_seven x = agree_below (λ y. bit_and y 0x7f) (λ y. y % 128) 256 x refl

pub top_bit : (x : ℕ) → x < 256 → bit_and x 0x80 ≡ x / 128 * 128
unfolding agree
top_bit x = agree_below (λ y. bit_and y 0x80) (λ y. y / 128 * 128) 256 x refl

pub lowest_bit : (x : ℕ) → x < 256 → bit_and x 1 ≡ x % 2
unfolding agree
lowest_bit x = agree_below (λ y. bit_and y 1) (λ y. y % 2) 256 x refl

-- Half the digits of `or` are enough once the first number has run out of them.
or_rounds : ℕ → ℕ → ℕ → ℕ
or_rounds n a b = digits (λ rest. rest) max n a b

or_rounds_enough : (n m a b : ℕ) → a ≤ n → a ≤ m → or_rounds n a b ≡ or_rounds m a b
unfolding or_rounds
or_rounds_enough zero zero a b le le' = refl
or_rounds_enough (suc n) zero zero b le le' = refl
or_rounds_enough zero (suc m) zero b le le' = refl
or_rounds_enough (suc n) (suc m) zero b le le' = refl
or_rounds_enough zero m (suc a) b le le' = absurd (omega arith)
or_rounds_enough (suc n) zero (suc a) b le le' = absurd (omega arith)
or_rounds_enough (suc n) (suc m) (suc a) b le le' =
    omega (arith, or_rounds_enough n m (suc a / 2) (b / 2) (omega arith) (omega arith))

zero-bit_or : (b : ℕ) → bit_or 0 b ≡ b
zero-bit_or b = bit_or-bitwise 0 b

or_lowest : (a b : ℕ) → bit_or a b ≡ bit_or (a / 2) (b / 2) * 2 + max (a % 2) (b % 2)
unfolding or_rounds
or_lowest zero b = omega (arith, zero-bit_or b, zero-bit_or (b / 2))
or_lowest (suc a) b = omega (
  arith,
  bit_or-bitwise (suc a) b,
  bit_or-bitwise (suc a / 2) (b / 2),
  or_rounds_enough a (suc a / 2) (suc a / 2) (b / 2) (omega arith) (omega arith),
)

-- Bits behind the first `k` join a number that fits in those.
pub or_above : (k a g : ℕ) → a < 2 ^ k → bit_or a (g * 2 ^ k) ≡ a + g * 2 ^ k
or_above zero a g lt =
    let z : a ≡ 0 = omega arith in
    omega (arith, ap (λ (t : ℕ). bit_or t (g * 1)) z, zero-bit_or (g * 1))
or_above (suc k) a g lt =
    let twice : g * 2 ^ suc k ≡ 2 * (g * 2 ^ k) =
      omega (arith, ap (λ (t : ℕ). g * t) (pow-suc 2 k)) in
    ground (arith, twice, pow-suc 2 k, or_lowest a (g * 2 ^ suc k), or_above k (a / 2) g)

-- A digit shifted in behind a number of five.
pub or_last : (c b : ℕ) → c < 32 → b < 2 → bit_or (c * 2) b ≡ c * 2 + b
unfolding agree
or_last c zero small lt = agree_below (λ y. bit_or (y * 2) 0) (λ y. y * 2 + 0) 32 c refl small
or_last c (suc zero) small lt = agree_below (λ y. bit_or (y * 2) 1) (λ y. y * 2 + 1) 32 c refl small
or_last c (suc (suc b)) small lt = absurd (omega arith)

-- `or` needs no more digits than its arguments.
pub or-lt : (k a b : ℕ) → a < 2 ^ k → b < 2 ^ k → bit_or a b < 2 ^ k
or-lt zero a b la lb =
    let z : a ≡ 0 = omega arith in omega (arith, ap (λ (t : ℕ). bit_or t b) z, zero-bit_or b)
or-lt (suc k) a b la lb = omega (
  arith,
  pow-suc 2 k,
  or_lowest a b,
  or-lt k (a / 2) (b / 2) (omega (arith, pow-suc 2 k)) (omega (arith, pow-suc 2 k)),
)
