-- ===== src/Tests/Concurrent.antt =====
-- Examples of requests that are handled at once
-- (antelope-firewall-lib/src/firewall_builder.rs) by the firewall of a configuration
-- (antelope-firewall-lib/src/config.rs).
mod Pins
use antelope_firewall.Prelude.{
  ℕ, zero, suc, ◌≡◌, refl, ◌↔◌, ◌⊎◌, true, Option, none, some, List, [], ◌∷◌, ◌++◌, map, Text,
  codes, ◌==◌, In, ok,
}
use antelope_firewall.Prelude.Maps.{get, insert}
use antelope_firewall.Prelude.Strings.{eq_ignore_ascii_case}
use antelope_firewall.Cache.{handle_cache_option}
use antelope_firewall.Config.Endpoints.{is_get, is_push, get_endpoints, push_endpoints}
use antelope_firewall.Config.NodeSet.{
  build_node_set, add_nodes, add_node, insert_parsed, is_valid_pinnable_name,
}
use antelope_firewall.Filter.{Filter, find_matching_urls}
use antelope_firewall.Filter
use antelope_firewall.Health.{
  failed, check_node, start, mark_all, insert_health, get_health, filter_healthy_urls,
}
use antelope_firewall.Node.{NodeEntry}
use antelope_firewall.PinLimiter
use antelope_firewall.Policy.{accounts, filter_test, endpoint_rule, health_rule, buckets_of}
use antelope_firewall.RateLimiter
use antelope_firewall.RateLimiter.{
  RateLimiter, should_request_pass, pass_buckets, charge, increment, update_current_window,
  get_current_window, roll, elapsed_current_window, over_limit, count_for_ip, finish,
  should_run_before_request,
}
use antelope_firewall.Routing.{to_state}
use antelope_firewall.Upstream.{client_ip_from_headers}
use antelope_firewall.Firewall.Body.{
  other, too_big, body_bytes, body_json, unpack_trx, packed_trx, trx_root,
}
use antelope_firewall.Firewall.Handler
use antelope_firewall.Firewall.Handler.{
  AntelopeFirewall, Incoming, Surroundings, request_info, add_filter, add_ratelimiter,
  add_matching_rule, set_pin_limiter,
}
use antelope_firewall.Firewall.Assembly.{
  Config, filter_sets, check_name, limiter_of, add_limiters, add_nodes_of, add_rules,
  increment_mode_of, from_config,
}
use antelope_firewall.Firewall.Concurrent.{
  Pending, Task, arrived, pinning, receive, screen_one, limit_one, match_nodes, advance,
}
use antelope_firewall.Firewall.Concurrent.World.{
  rules_at, World, arrive, run, check, Reach, here, next,
}
use antelope_firewall.Firewall.Serving.Invariants.{Kept}
use antelope_firewall.Policy.Laws.{passes_health}
use antelope_firewall.PinLimiter.{PinLimiter}
use antelope_firewall.Firewall.Concurrent.Opened.{opened}
use antelope_firewall.Firewall.Concurrent.Reached.{Reach-Kept, Reach-matching}
use antelope_firewall.Tests.Apis.{urls, floats, headers, addresses, jsons}
use antelope_firewall.Tests.Blocking.{as_bytes, decoder, push, silence, no_order}
use antelope_firewall.Tests.Serving

abbrev config : Config
config = record Serving.config { healthcheck = some 5; get_nodes = Serving.config.push_nodes }

abbrev early : ℕ → ℕ
early k = 0

started :
    (fw : AntelopeFirewall urls headers addresses jsons floats) × (from_config urls headers
        addresses jsons floats config early
      ≡ some (ok fw))
unfolding from_config filter_sets add_limiters check_name limiter_of RateLimiter.new
    get_current_window add_nodes_of build_node_set add_nodes add_node insert_parsed
    is_valid_pinnable_name ◌==◌ Handler.new add_filter add_ratelimiter add_matching_rule
    set_pin_limiter add_rules Filter.new to_state PinLimiter.new start mark_all insert_health
started = (_, refl)

writes : (ns : List (NodeEntry urls)) × (build_node_set urls config.push_nodes ≡ ok ns)
unfolding build_node_set add_nodes add_node insert_parsed is_valid_pinnable_name ◌==◌
writes = (_, refl)

abbrev env : Surroundings urls headers addresses jsons floats
env = record silence { sample = λ weights. some 0 }

abbrev no_time : Text → Option ℕ
no_time t = none

abbrev Place : Type 0
Place = World urls headers addresses jsons floats

abbrev Leads : Place → Place → Type 0
Leads w0 w =
    Reach urls headers addresses jsons floats no_order as_bytes decoder no_time writes.0 writes.0 w0
      w

abbrev first : Place
first = opened urls headers addresses jsons floats config started.0 writes.0 writes.0

-- The first task goes one stage on.
abbrev stage : Place → Task urls headers addresses jsons floats → Place
stage w t = record w {
  firewall =
      (advance urls headers addresses jsons floats no_order as_bytes decoder env w.firewall t).0;
  tasks =
      (advance urls headers addresses jsons floats no_order as_bytes decoder env w.firewall t).1
      ∷ [];
}

stage-Leads :
    (w : Place) (t : Task urls headers addresses jsons floats)
    → w.tasks ≡ t ∷ []
    → Leads first w
    → Leads first (stage w t)
stage-Leads w t e r = next r (run env t [] [] e refl)

abbrev run_on : ℕ → Place → List (Task urls headers addresses jsons floats) → Place
run_on zero w ts = w
run_on (suc n) w [] = w
run_on (suc n) w (t ∷ []) = let w' = stage w t in run_on n w' w'.tasks
run_on (suc n) w (t ∷ s ∷ ts) = w

run_on-Leads :
    (n : ℕ) (w : Place) (ts : List (Task urls headers addresses jsons floats))
    → w.tasks ≡ ts
    → Leads first w
    → Leads first (run_on n w ts)
run_on-Leads zero w ts e r = r
run_on-Leads (suc n) w [] e r = r
run_on-Leads (suc n) w (t ∷ []) e r = run_on-Leads n (stage w t) _ refl (stage-Leads w t e r)
run_on-Leads (suc n) w (t ∷ s ∷ ts) e r = r

-- A request of another method than POST and OPTIONS, and a read that names its node.
abbrev other_push : Incoming urls headers addresses jsons floats
other_push = record push { method = other }

abbrev pinned_read : Incoming urls headers addresses jsons floats
pinned_read = record other_push {
  path = codes "/v1/chain/get_info";
  query = some (codes "upstream=p");
}

abbrev alone : Incoming urls headers addresses jsons floats → ℕ → Place
alone inc n =
    let t = arrived inc (codes "10.0.0.1") in run_on n (record first { tasks = t ∷ [] }) (t ∷ [])

alone-Leads :
    (inc : Incoming urls headers addresses jsons floats) (n : ℕ) → Leads first (alone inc n)
alone-Leads inc n =
    let t = arrived inc (codes "10.0.0.1") in
    run_on-Leads n (record first { tasks = t ∷ [] }) (t ∷ []) refl
      (next here (arrive inc (codes "10.0.0.1") refl))

abbrev waits : ℕ → Place
waits n = alone other_push n

waits-Leads : (n : ℕ) → Leads first (waits n)
waits-Leads n = alone-Leads other_push n

-- A node is checked and fails while the request is before its matching.
abbrev failing : Place
failing = record (waits 5) {
  health = some (
      check_node urls no_time (start urls (map (λ e. e.url) (writes.0 ++ writes.0)) 5)
        (443, codes "p.io", codes "/", none) (failed (codes "timed out")) 7);
  firewall = record (waits 5).firewall {
    rules = rules_at urls headers addresses jsons floats writes.0 writes.0 (
        some (
          check_node urls no_time (start urls (map (λ e. e.url) (writes.0 ++ writes.0)) 5)
            (443, codes "p.io", codes "/", none) (failed (codes "timed out")) 7));
  };
}

failing-Leads : Leads first failing
unfolding started writes advance receive screen_one limit_one too_big body_bytes body_json
    unpack_trx packed_trx trx_root request_info client_ip_from_headers Filter.should_request_pass
    filter_test accounts is_get is_push get_endpoints push_endpoints handle_cache_option
    should_request_pass pass_buckets charge increment update_current_window get_current_window roll
    elapsed_current_window over_limit count_for_ip finish should_run_before_request get insert ◌==◌
    eq_ignore_ascii_case buckets_of increment_mode_of
failing-Leads = next (waits-Leads 5) (
    check (start urls (map (λ e. e.url) (writes.0 ++ writes.0)) 5)
      (443, codes "p.io", codes "/", none) (failed (codes "timed out")) 7 refl refl)

Reach-Kept_example :
    Kept urls headers addresses jsons floats no_order as_bytes decoder
      (record started.0 {
        rules = rules_at urls headers addresses jsons floats writes.0 writes.0 failing.health;
      })
      failing.firewall
Reach-Kept_example =
    Reach-Kept urls headers addresses jsons floats no_order as_bytes decoder no_time writes.0
      writes.0 config early started.0 failing writes.1 writes.1 started.1 failing-Leads

matches :
    (p : Pending urls headers addresses jsons floats) × (ns : List (NodeEntry urls)) × (match_nodes
        urls headers addresses jsons floats no_order as_bytes decoder
        (waits 5).firewall
        p
      ≡ pinning p ns)
    × ((waits 6).tasks ≡ pinning p ns ∷ [])
unfolding started writes advance receive screen_one limit_one match_nodes too_big body_bytes
    body_json unpack_trx packed_trx trx_root request_info client_ip_from_headers
    Filter.should_request_pass filter_test accounts is_get is_push get_endpoints push_endpoints
    handle_cache_option should_request_pass pass_buckets charge increment update_current_window
    get_current_window roll elapsed_current_window over_limit count_for_ip finish
    should_run_before_request find_matching_urls endpoint_rule health_rule filter_healthy_urls
    get_health get insert ◌==◌ eq_ignore_ascii_case buckets_of increment_mode_of
matches = (_, _, refl, refl)

abbrev the_node : NodeEntry urls
the_node = record {
  url = (443, codes "p.io", codes "/", none);
  weight = 1;
  name = codes "p";
  pinnable = true;
}

Reach-matching_example : In the_node matches.1 ↔ (
    (((is_get matches.0.info.path ≡ true) × In the_node writes.0)
      ⊎ ((is_push matches.0.info.path ≡ true) × In the_node writes.0))
    × (passes_health jsons urls (waits 5).health the_node ≡ true))
Reach-matching_example =
    Reach-matching urls headers addresses jsons floats no_order as_bytes decoder no_time writes.0
      writes.0 config early started.0 (waits 5) writes.1 writes.1 started.1 (waits-Leads 5)
      matches.0 matches.1 the_node matches.2
