-- ===== src/Tests/Least.antt =====
-- An example of the mode LeastConnected (antelope-firewall-lib/src/firewall_builder.rs), with loads
-- that are natural numbers.
use antelope_firewall.Prelude.{
  In, All, ℕ, ◌<◌, ◌≡◌, ◌≢◌, ◌⊎◌, inl, inr, true, Option, none, some, List, [], ◌∷◌, arith, Text,
  codes, ltb, if◌then◌else◌, Bool-cases,
}
use antelope_firewall.Node.{NodeEntry}
use antelope_firewall.Routing.{Order, less, equal, greater, choose_least_connected}
use antelope_firewall.Routing.Least.{IsOrder, Least, choose_least_connected-Least}
use antelope_firewall.Tests.Apis.{urls, floats}

abbrev compare : ℕ → ℕ → Option Order
compare a b = some (if ltb b a then greater else if ltb a b then less else equal)

abbrev Any : ℕ → Type 0
Any n = Unit

compare-greater : (a b : ℕ) → b < a → compare a b ≡ some greater
compare-greater a b lt = ground arith

greater-compare : (a b : ℕ) → compare a b ≡ some greater → b < a
greater-compare a b e = ground (arith, e)

compare_trans :
    (a b c : ℕ)
    → compare a b ≢ some greater
    → compare b c ≢ some greater
    → compare a c ≢ some greater
compare_trans a b c h k e = elim (Bool-cases (ltb b a)) [
  | inl t ↦ h (compare-greater a b (ground arith))
  | inr t ↦ k (compare-greater b c (ground (arith, greater-compare a c e)))
]

compare-IsOrder : IsOrder compare Any
compare-IsOrder = record {
  flips = λ a b na nb h. ground arith;
  transitive = λ a b c na nb nc h k. compare_trans a b c h k;
}

abbrev first : NodeEntry urls
first = record {
  url = (443, codes "a.io", codes "/", none);
  weight = 1;
  name = codes "a";
  pinnable = true;
}

abbrev second : NodeEntry urls
second = record {
  url = (443, codes "b.io", codes "/", none);
  weight = 1;
  name = codes "b";
  pinnable = true;
}

abbrev third : NodeEntry urls
third = record {
  url = (443, codes "c.io", codes "/", none);
  weight = 2;
  name = codes "c";
  pinnable = true;
}

abbrev nodes : List (NodeEntry urls)
nodes = first ∷ second ∷ third ∷ []

-- `a.io` has nine connections, `b.io` four and `c.io`, of the double weight, eight.
abbrev counts : List (Text × ℕ)
counts = (codes "a.io", 9) ∷ (codes "b.io", 4) ∷ (codes "c.io", 8) ∷ []

choose_least_connected-Least_example :
    ((m : NodeEntry urls) × (choose_least_connected urls floats compare counts nodes ≡ some m)
      × All (λ n. (host : Text) × (urls.host_str n.url ≡ some host)) nodes
      × Least urls floats compare Any compare-IsOrder counts m nodes)
    ⊎ (choose_least_connected urls floats compare counts nodes ≡ none)
      × ((nodes ≡ []) ⊎ ((n : NodeEntry urls) × In n nodes × (urls.host_str n.url ≡ none)))
choose_least_connected-Least_example =
    choose_least_connected-Least urls floats compare Any compare-IsOrder counts nodes
      (tt, (tt, (tt, tt)))
