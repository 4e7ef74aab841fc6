-- ===== src/Metrics/Names.antt =====
-- The names of the counters of the nodes (antelope-firewall-lib/src/firewall_builder.rs): when two
-- are one, and that the registry takes them.
use antelope_firewall.Prelude.{
  ℕ, ◌<◌, ◌≡◌, refl, sym, ap, ◌∙◌, inl, inr, Bool, true, not, ◌&&◌, ◌||◌, some, [], ◌∷◌, ◌++◌, map,
  arith, Text, ltb, eqb, if◌then◌else◌, drop, all, Bool-cases,
}
use mathlib.Core.List.{reverse, reverse-append, reverse-reverse}
use antelope_firewall.Config.NodeSet.{is_ascii_alphanumeric}
use antelope_firewall.Metrics.{
  is_letter, is_digit, metric_name, url_name, Kind, processed, success, client_error, server_error,
  suffix, node_counter,
}

abbrev head_or_zero : Text → ℕ
head_or_zero [] = 0
head_or_zero (c ∷ cs) = c

abbrev seventh : Text → ℕ
seventh t = head_or_zero (drop 6 t)

-- The seventh character from the end tells the kinds apart.
tail-suffix :
    (x y : Text) (k l : Kind)
    → reverse (suffix k) ++ reverse x ≡ reverse (suffix l) ++ reverse y
    → (reverse x ≡ reverse y) × (k ≡ l)
tail-suffix x y processed processed e = (ap (drop 10) e, refl)
tail-suffix x y success success e = (ap (drop 8) e, refl)
tail-suffix x y client_error client_error e = (ap (drop 13) e, refl)
tail-suffix x y server_error server_error e = (ap (drop 13) e, refl)
tail-suffix x y k l e = absurd (omega (arith, ap seventh e))

-- Two counters of nodes have one name only if they are one counter of one node.
pub node_counter-injective :
    (x y : Text) (k l : Kind) → node_counter x k ≡ node_counter y l → (x ≡ y) × (k ≡ l)
unfolding node_counter
node_counter-injective x y k l e =
    let tails : x ++ suffix k ≡ y ++ suffix l = ap (drop 5) e in
    let same =
      tail-suffix x y k l
        (sym (reverse-append x (suffix k)) ∙ ap reverse tails ∙ reverse-append y (suffix l)) in
    (sym (reverse-reverse x) ∙ ap reverse same.0 ∙ reverse-reverse y, same.1)

-- The names of the counters of a node whose host is ASCII are names of metrics.
all-append : (p : ℕ → Bool) (xs ys : Text) → all p (xs ++ ys) ≡ (all p xs && all p ys)
all-append p [] ys = refl
all-append p (x ∷ xs) ys = ground (arith, all-append p xs ys)

abbrev is_name_char : ℕ → Bool
is_name_char d = is_letter d || is_digit d

abbrev pub is_ascii : Text → Bool
is_ascii host = all (λ c. ltb c 128) host

-- What a character of the host becomes.
abbrev clean : (ℕ → Bool) → ℕ → ℕ
clean is_alphanumeric c = if not (eqb c b'_') && not (is_alphanumeric c) then b'_' else c

clean-is_name_char :
    (is_alphanumeric : ℕ → Bool) (c : ℕ)
    → is_alphanumeric c ≡ is_ascii_alphanumeric c
    → is_name_char (clean is_alphanumeric c) ≡ true
clean-is_name_char is_alphanumeric c same = elim (Bool-cases (is_alphanumeric c)) [
  | inl t ↦ let a : is_ascii_alphanumeric c ≡ true = sym same ∙ t in ground (arith, t, a)
  | inr t ↦ ground (arith, t)
]

all-clean :
    (is_alphanumeric : ℕ → Bool) (host : Text)
    → ((c : ℕ) → c < 128 → is_alphanumeric c ≡ is_ascii_alphanumeric c)
    → is_ascii host ≡ true
    → all is_name_char (map (clean is_alphanumeric) host) ≡ true
all-clean is_alphanumeric [] same ascii = refl
all-clean is_alphanumeric (c ∷ host) same ascii =
    let rest = all-clean is_alphanumeric host same (ground arith) in
    let first = clean-is_name_char is_alphanumeric c (same c (ground arith)) in rw first rest

abbrev pub IsAlphanumeric : (ℕ → Bool) → Type 0
IsAlphanumeric is_alphanumeric = (c : ℕ) → c < 128 → is_alphanumeric c ≡ is_ascii_alphanumeric c

suffix-is_name_char : (k : Kind) → all is_name_char (suffix k) ≡ true
suffix-is_name_char processed = refl
suffix-is_name_char success = refl
suffix-is_name_char client_error = refl
suffix-is_name_char server_error = refl

pub node_counter-metric_name :
    (is_alphanumeric : ℕ → Bool) (host : Text) (k : Kind)
    → IsAlphanumeric is_alphanumeric
    → is_ascii host ≡ true
    → metric_name (node_counter (url_name is_alphanumeric (some host)) k) ≡ true
unfolding node_counter url_name
node_counter-metric_name is_alphanumeric host k same ascii =
    all-append is_name_char (map (clean is_alphanumeric) host) (suffix k)
    ∙ rw (all-clean is_alphanumeric host same ascii) (suffix-is_name_char k)
