-- ===== src/Upstream/Query.antt =====
-- What `upstream_param` and `requested_upstream` (antelope-firewall-lib/src/firewall_builder.rs)
-- read out of a query string.
use antelope_firewall.Prelude.{
  ℕ, ◌≡◌, refl, true, false, none, some, List, [], ◌∷◌, ◌++◌, arith, Text, codes, All,
}
use antelope_firewall.Prelude.Strings.{
  split, strip_prefix, is_empty, find_map, lacks, split-lacks, split-append, strip_prefix-append,
}
use antelope_firewall.Upstream.{upstream_param}

abbrev pub prefix : Text
prefix = codes "upstream="

-- A query that begins with the given parameters, each followed by `&`.
abbrev pub query_of : List Text → Text → Text
query_of [] rest = rest
query_of (p ∷ ps) rest = p ++ b'&' ∷ query_of ps rest

-- A parameter other than `upstream`.
abbrev pub IsOther : Text → Type 0
IsOther p = (lacks b'&' p ≡ true) × (strip_prefix prefix p ≡ none)

find_map-query :
    (before : List Text) (rest : Text)
    → All IsOther before
    → find_map (strip_prefix prefix) (split b'&' (query_of before rest))
      ≡ find_map (strip_prefix prefix) (split b'&' rest)
find_map-query [] rest h = refl
find_map-query (p ∷ ps) rest h =
    rw (split-append b'&' p (query_of ps rest) h.0.0, h.0.1, find_map) (find_map-query ps rest h.1)

lacks-append : (c : ℕ) (s t : Text) → lacks c s ≡ true → lacks c t ≡ true → lacks c (s ++ t) ≡ true
lacks-append c [] t hs ht = ht
lacks-append c (x ∷ xs) t hs ht = ground (arith, lacks-append c xs t)

-- The name a client writes is the name that is read: behind any other parameters, and whatever
-- follows it, `upstream=<name>` is found, for a name that is not empty and holds no `&`.
pub upstream_param-query :
    (before : List Text) (name rest : Text)
    → All IsOther before
    → lacks b'&' name ≡ true
    → is_empty name ≡ false
    → (upstream_param (some (query_of before (prefix ++ name))) ≡ some name)
      × (upstream_param (some (query_of before ((prefix ++ name) ++ b'&' ∷ rest))) ≡ some name)
unfolding upstream_param
upstream_param-query before name rest h clean nonempty =
    let whole = lacks-append b'&' prefix name refl clean in
    (
      rw (find_map-query before (prefix ++ name) h, split-lacks b'&' (prefix ++ name) whole)
          (rw (strip_prefix-append prefix name, find_map) (ground arith)),
      rw
          (
            find_map-query before ((prefix ++ name) ++ b'&' ∷ rest) h,
            split-append b'&' (prefix ++ name) rest whole,
          )
          (rw (strip_prefix-append prefix name, find_map) (ground arith)),
    )
