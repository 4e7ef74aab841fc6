-- ===== src/Router/Paths.antt =====
-- The groups of paths of antelope-firewall-lib/src/router.rs, and the sets that the nodes accept.
use antelope_firewall.Prelude.{
  ◌≡◌, refl, ap, inl, inr, ◌||◌, Option, none, some, List, [], ◌∷◌, arith, Text, codes, ◌==◌,
  text_eq_iff, eq_of_text, if◌then◌else◌, Bool-cases, contains,
}
use antelope_firewall.Prelude.Maps.{Map, get, insert, get-insert}
use antelope_firewall.Router.{all_paths, get_paths, push_paths, insert_paths, paths_map, extend}

get-insert_paths :
    (paths : List Text) (k : Text) (m : Map (List Text))
    → get k (insert_paths paths m) ≡ (if contains paths k then some (k ∷ []) else get k m)
unfolding insert_paths
get-insert_paths [] k m = refl
get-insert_paths (path ∷ paths) k m = ground (
  arith,
  get-insert_paths paths k (insert path (path ∷ []) m),
  get-insert path k (path ∷ []) m,
  text_eq_iff path k,
)

-- What a keyword stands for: the three groups, and each path for itself.
abbrev pub group : Text → Option (List Text)
group k =
    if codes "push" == k
    then some push_paths
    else if codes "get" == k
    then some get_paths
    else if contains all_paths k
    then some (k ∷ [])
    else if codes "all" == k
    then some all_paths
    else none

pub get-paths_map : (k : Text) → get k paths_map ≡ group k
unfolding paths_map get
get-paths_map k =
    let rest = insert_paths all_paths (insert (codes "all") all_paths []) in
    ground (
      arith,
      get-insert (codes "push") k push_paths (insert (codes "get") get_paths rest),
      get-insert (codes "get") k get_paths rest,
      get-insert_paths all_paths k (insert (codes "all") all_paths []),
      get-insert (codes "all") k all_paths [],
    )

pub contains-extend :
    (acc xs : List Text) (t : Text) → contains (extend acc xs) t ≡ (contains acc t || contains xs t)
unfolding extend
contains-extend acc [] t = ground arith
contains-extend acc (x ∷ xs) t =
    let rest = contains-extend (if contains acc x then acc else x ∷ acc) xs t in
    elim (Bool-cases (x == t)) [
      | inr e ↦ ground (arith, rest, e)
      | inl e ↦ ground (arith, rest, e, ap (contains acc) (eq_of_text x t e))
    ]
