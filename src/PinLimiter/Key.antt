-- ===== src/PinLimiter/Key.antt =====
-- The key of a pin counter, `format!("{}::{}", ip, node.name)` in `handle_request`
-- (antelope-firewall-lib/src/firewall_builder.rs).
use antelope_firewall.Prelude.{
  ℕ, ◌≡◌, refl, ◌≢◌, Bool, true, false, [], ◌∷◌, ◌++◌, arith, Text, codes, eqb, any,
}

unfoldable pub pin_key : Text → Text → Text
pin_key ip name = ip ++ (codes "::" ++ name)

abbrev pub colon : ℕ
colon = b':'

abbrev pub has_colon : Text → Bool
has_colon = any (eqb colon)

has_colon-append : (xs ys : Text) → has_colon (xs ++ colon ∷ ys) ≡ true
has_colon-append [] ys = refl
has_colon-append (x ∷ xs) ys = ground (arith, has_colon-append xs ys)

-- A text without a colon is no suffix that starts inside the separator.
no_overlap :
    (c : ℕ) (cs n m : Text) → has_colon n ≡ false → colon ∷ colon ∷ n ≢ c ∷ cs ++ colon ∷ colon ∷ m
no_overlap c [] n m h e = ground arith
no_overlap c (d ∷ ds) n m h e = ground (arith, has_colon-append ds (colon ∷ m))

-- Two clients, or two node names without a colon, never share a counter.
pub pin_key-injective :
    (ip jp n m : Text)
    → has_colon n ≡ false
    → has_colon m ≡ false
    → pin_key ip n ≡ pin_key jp m
    → (ip ≡ jp) × (n ≡ m)
unfolding pin_key
pin_key-injective [] [] n m hn hm e = (refl, ground arith)
pin_key-injective [] (c ∷ cs) n m hn hm e = absurd (no_overlap c cs n m hn (ground arith))
pin_key-injective (c ∷ cs) [] n m hn hm e = absurd (no_overlap c cs m n hm (ground arith))
pin_key-injective (c ∷ cs) (d ∷ ds) n m hn hm e = ground (arith, pin_key-injective cs ds n m hn hm)
