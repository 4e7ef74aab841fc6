-- ===== src/Routing.antt =====
-- The routing modes of antelope-firewall-lib/src/firewall_builder.rs (`RoutingModeState` and the
-- choice of a node in `handle_request`). The matched set is the list of its nodes in iteration
-- order; the weighted random choice of the crate rand is a parameter.
pub mod Least
pub mod Choice
pub mod RoundRobin
use antelope_firewall.Prelude.{
  ℕ, ◌+◌, ◌-◌, ◌%◌, Bool, true, false, Option, none, some, List, [], ◌∷◌, map, Text, ltb, eqb,
  if◌then◌else◌, get_elem?, all,
}
use antelope_firewall.Prelude.Maps.{Map, get, insert}
use antelope_firewall.Node.{UrlApi, NodeEntry}
use antelope_firewall.RateLimiter.{F32, u64_mod}

pub data RoutingMode : Type 0 where
  round_robin least_connections random : RoutingMode

pub data RoutingModeState : Type 0 where
  round_robin_state : Map ℕ → RoutingModeState
  least_connected_state : Map ℕ → RoutingModeState
  random_state : RoutingModeState

unfoldable pub base_round_robin : RoutingModeState
base_round_robin = round_robin_state []

unfoldable pub base_least_connected : RoutingModeState
base_least_connected = least_connected_state []

unfoldable pub base_random : RoutingModeState
base_random = random_state

unfoldable pub to_state : RoutingMode → RoutingModeState
unfolding base_round_robin base_least_connected base_random
to_state round_robin = base_round_robin
to_state least_connections = base_least_connected
to_state random = base_random

-- `partial_cmp` of two floats, `none` for a NaN.
pub data Order : Type 0 where
  less equal greater : Order

module _ (u : UrlApi) where
  -- The fold of the round robin: the node whose share of the total holds the given number.
  unfoldable pub pick_weighted : ℕ → List (NodeEntry u) → Option (NodeEntry u)
  pick_weighted weights_left [] = none
  pick_weighted weights_left (node ∷ nodes) =
      if ltb weights_left node.weight
      then some node
      else pick_weighted (weights_left - node.weight) nodes

  unfoldable pub sum_weights : List (NodeEntry u) → ℕ
  sum_weights [] = 0
  sum_weights (node ∷ nodes) = node.weight + sum_weights nodes

  -- The counter of the path and its atomic `fetch_add`: a path without a counter counts as 0.
  unfoldable pub fetch_add : Text → Map ℕ → ℕ × Map ℕ
  fetch_add path counts = elim (get path counts) [
    | none ↦ (0, counts)
    | some n ↦ (n, insert path ((n + 1) % u64_mod) counts)
  ]

  -- `count % sum`, where a sum of zero panics; the sum is one of u64.
  unfoldable pub choose_round_robin :
      Text → Map ℕ → List (NodeEntry u) → Option (Option (NodeEntry u) × Map ℕ)
  choose_round_robin path counts urls =
      let (count, counts') = fetch_add path counts in
      let total = sum_weights urls % u64_mod in
      if eqb total 0 then none else some (pick_weighted (count % total) urls, counts')

  module _ (f : F32) (partial_cmp : f.Float → f.Float → Option Order) where
    abbrev pub host_of : NodeEntry u → Text
    host_of node = elim (u.host_str node.url) [ none ↦ [] | some host ↦ host ]

    abbrev pub has_host : NodeEntry u → Bool
    has_host node = elim (u.host_str node.url) [ none ↦ false | some host ↦ true ]

    -- The load of a node: its connections, or 1 where none are counted, by its weight.
    unfoldable pub load : Map ℕ → NodeEntry u → f.Float
    load counts node =
        f.div (f.of_u64 (elim (get (host_of node) counts) [ none ↦ 1 | some a ↦ a ]))
          (f.of_u64 node.weight)

    -- `partial_cmp(..).unwrap_or(Equal)` says that the first is greater.
    unfoldable pub is_greater : f.Float → f.Float → Bool
    is_greater a b = elim (partial_cmp a b) [
      | none ↦ false
      | some o ↦ elim o [ less ↦ false | equal ↦ false | greater ↦ true ]
    ]

    -- `Iterator::min_by`: of equal elements the first.
    unfoldable pub min_by_load : Map ℕ → NodeEntry u → List (NodeEntry u) → NodeEntry u
    min_by_load counts best [] = best
    min_by_load counts best (node ∷ nodes) =
        min_by_load counts (if is_greater (load counts best) (load counts node) then node else best)
          nodes

    -- `none` stands for a panic: an empty set, or a url without a host.
    unfoldable pub choose_least_connected : Map ℕ → List (NodeEntry u) → Option (NodeEntry u)
    choose_least_connected counts [] = none
    choose_least_connected counts (node ∷ nodes) =
        if all has_host (node ∷ nodes) then some (min_by_load counts node nodes) else none

    -- The routing mode's choice, and the counters after it. `sample` is the index that
    -- `WeightedIndex` draws for the weights. `none` stands for a panic.
    unfoldable pub choose :
        RoutingModeState
        → (List ℕ → Option ℕ)
        → Text
        → List (NodeEntry u)
        → Option (Option (NodeEntry u) × RoutingModeState)
    choose (least_connected_state counts) sample path urls =
        elim (choose_least_connected counts urls) [
          | none ↦ none
          | some node ↦ some (some node, least_connected_state counts)
        ]
    choose (round_robin_state counts) sample path urls =
        elim (choose_round_robin path counts urls) [
          | none ↦ none
          | some (node, counts') ↦ some (node, round_robin_state counts')
        ]
    choose random_state sample path urls = elim (sample (map (λ node. node.weight) urls)) [
      | none ↦ none
      | some i ↦ elim (get_elem? urls i) [
        | none ↦ none
        | some node ↦ some (some node, random_state)
      ]
    ]
