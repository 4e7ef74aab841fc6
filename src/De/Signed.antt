-- ===== src/De/Signed.antt =====
-- The two widest signed integers of antelope-firewall-lib/src/de.rs.
use antelope_firewall.Prelude.{
  ℕ, zero, suc, ◌≤◌, ◌<◌, ◌≡◌, List, [], ◌∷◌, arith, ltb, if◌then◌else◌, length, take,
}
use antelope_firewall.De.{eof, failed, panicked, next_bytes, read_le, parse_i64, parse_i128}
use antelope_firewall.De.Visitor.{Visitor, deserialize_i64, deserialize_i128}

take-le : (n : ℕ) (xs : List ℕ) → length (take n xs) ≤ n
take-le zero xs = omega arith
take-le (suc n) [] = omega arith
take-le (suc n) (x ∷ xs) = omega (arith, take-le n xs)

read_le-panicked :
    (count size : ℕ) (s : List ℕ)
    → count < size
    → read_le count size s ≡ (if ltb (length s) count then failed eof else panicked)
unfolding read_le next_bytes
read_le-panicked count size s lt = ground (arith, take-le count s)

-- An i64 or an i128 is never read: with fewer than four bytes left the outcome is the error for the
-- end of the input, and with more the reader panics, whatever the visitor, since it copies four
-- bytes into an array of eight or sixteen.
pub deserialize_i64-panicked :
    {A : Type 0} (visitor : Visitor A) (s : List ℕ)
    → (deserialize_i64 visitor s ≡ (if ltb (length s) 4 then failed eof else panicked))
      × (deserialize_i128 visitor s ≡ (if ltb (length s) 4 then failed eof else panicked))
unfolding deserialize_i64 deserialize_i128 parse_i64 parse_i128
deserialize_i64-panicked visitor s =
    (ground (arith, read_le-panicked 4 8 s), ground (arith, read_le-panicked 4 16 s))
