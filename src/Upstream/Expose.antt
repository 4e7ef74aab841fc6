-- ===== src/Upstream/Expose.antt =====
-- `expose_header_value` (antelope-firewall-lib/src/firewall_builder.rs), read back as a list header.
use antelope_firewall.Prelude.{
  ℕ, ◌≡◌, refl, inl, inr, Bool, true, false, not, List, [], ◌∷◌, ◌++◌, map, arith, Text, codes, ◌⊎◌,
  In, eqb, keep, All, Bool-cases, All-append, All-keep, All-mono, All-map,
}
use antelope_firewall.Prelude.Strings.{
  split, trim, trim_start, trim_end, is_empty, flat_map, eq_ignore_ascii_case, lacks, trim_idem,
  cons_head,
}
use antelope_firewall.Upstream.{header_entries}

-- An entry as the parser leaves it: no comma, nothing to trim, not empty.
abbrev pub IsClean : Text → Type 0
IsClean e = (lacks b',' e ≡ true) × (trim e ≡ e) × (is_empty e ≡ false)

abbrev nonempty : Text → Bool
nonempty e = not (is_empty e)

split-All-lacks : (t : Text) → All (λ p. lacks b',' p ≡ true) (split b',' t)
unfolding split
split-All-lacks [] = (refl, tt)
split-All-lacks (c ∷ cs) = elim (Bool-cases (eqb c b',')) [
  | inl sep ↦ rw (sep) (refl, split-All-lacks cs)
  | inr other ↦ rw (other) (cons_head-All c other (split b',' cs) (split-All-lacks cs))
]
  where
    cons_head-All :
        (c : ℕ)
        → eqb c b',' ≡ false
        → (ps : List Text) → All (λ p. lacks b',' p ≡ true) ps
        → All (λ p. lacks b',' p ≡ true) (cons_head c ps)
    cons_head-All c e [] h = (ground arith, tt)
    cons_head-All c e (p ∷ ps) h = (ground (arith, h.0), h.1)

lacks-trim_start : (t : Text) → lacks b',' t ≡ true → lacks b',' (trim_start t) ≡ true
unfolding trim_start
lacks-trim_start [] h = refl
lacks-trim_start (c ∷ cs) h = ground (arith, lacks-trim_start cs)

lacks-trim_end : (t : Text) → lacks b',' t ≡ true → lacks b',' (trim_end t) ≡ true
unfolding trim_end
lacks-trim_end [] h = refl
lacks-trim_end (c ∷ cs) h = ground (arith, lacks-trim_end cs)

lacks-trim : (t : Text) → lacks b',' t ≡ true → lacks b',' (trim t) ≡ true
unfolding trim
lacks-trim t h = lacks-trim_end (trim_start t) (lacks-trim_start t h)

flat_map-All-lacks :
    (existing : List Text) → All (λ p. lacks b',' p ≡ true) (flat_map (split b',') existing)
flat_map-All-lacks [] = tt
flat_map-All-lacks (v ∷ vs) =
    All-append (λ p. lacks b',' p ≡ true) (split b',' v) (flat_map (split b',') vs)
      (split-All-lacks v) (flat_map-All-lacks vs)

keep-All : (p : Text → Bool) (xs : List Text) → All (λ x. p x ≡ true) (keep p xs)
keep-All p [] = tt
keep-All p (x ∷ xs) = elim (Bool-cases (p x)) [
  | inl t ↦ rw t (t, keep-All p xs)
  | inr f ↦ rw f (keep-All p xs)
]

All-both :
    (xs : List Text)
    → All (λ e. (lacks b',' e ≡ true) × (trim e ≡ e)) xs
    → All (λ e. nonempty e ≡ true) xs
    → All IsClean xs
All-both [] h k = tt
All-both (x ∷ xs) h k = ((h.0.0, h.0.1, ground (arith, k.0)), All-both xs h.1 k.1)

pub header_entries-IsClean : (existing : List Text) → All IsClean (header_entries existing)
unfolding header_entries
header_entries-IsClean existing =
    let pieces = flat_map (split b',') existing in
    All-both (keep nonempty (map trim pieces))
      (All-keep (λ e. (lacks b',' e ≡ true) × (trim e ≡ e)) nonempty (map trim pieces)
        (All-map (λ e. (lacks b',' e ≡ true) × (trim e ≡ e)) trim pieces
          (All-mono (λ p. lacks b',' p ≡ true)
            (λ p. (lacks b',' (trim p) ≡ true) × (trim (trim p) ≡ trim p)) pieces
            (λ p h. (lacks-trim p h, trim_idem p)) (flat_map-All-lacks existing))))
      (keep-All nonempty (map trim pieces))

-- The entries of one value, and of one that begins with a blank.
abbrev entries_of : Text → List Text
entries_of t = keep nonempty (map trim (split b',' t))

-- Some entry names the header of the upstream, whatever the case of its letters.
abbrev pub Names : List Text → Type 0
Names es = (e : Text) × In e es × (eq_ignore_ascii_case e (codes "X-Antelope-Upstream") ≡ true)

-- The entries as they are, if one of them names the header of the upstream, and else with its name
-- as one more at the end.
abbrev pub Named : List Text → List Text → Type 0
Named es named =
    (Names es × (named ≡ es)) ⊎ (¬ Names es) × (named ≡ es ++ codes "X-Antelope-Upstream" ∷ [])
