-- ===== src/Tests/Concurrent/Pins.antt =====
-- An example of a pin (antelope-firewall-lib/src/firewall_builder.rs) in a firewall that handles
-- requests.
use antelope_firewall.Prelude.{◌≡◌, refl, List, [], ◌∷◌, Text, codes, ◌==◌}
use antelope_firewall.Prelude.Maps.{get, insert}
use antelope_firewall.Prelude.Strings.{eq_ignore_ascii_case}
use antelope_firewall.Cache.{handle_cache_option}
use antelope_firewall.Config.Endpoints.{is_get, is_push, get_endpoints, push_endpoints}
use antelope_firewall.Filter.{Filter, find_matching_urls}
use antelope_firewall.Filter
use antelope_firewall.Health.{get_health, filter_healthy_urls}
use antelope_firewall.Node.{NodeEntry}
use antelope_firewall.PinLimiter
use antelope_firewall.Policy.{accounts, filter_test, endpoint_rule, health_rule, buckets_of}
use antelope_firewall.RateLimiter.{
  should_request_pass, pass_buckets, charge, increment, update_current_window, get_current_window,
  roll, elapsed_current_window, over_limit, count_for_ip, finish, should_run_before_request,
}
use antelope_firewall.Upstream.{client_ip_from_headers}
use antelope_firewall.Firewall.Body.{
  too_big, body_bytes, body_json, unpack_trx, packed_trx, trx_root,
}
use antelope_firewall.Firewall.Route.{asked_node}
use antelope_firewall.Firewall.Handler.{request_info}
use antelope_firewall.Firewall.Assembly.{increment_mode_of}
use antelope_firewall.Firewall.Concurrent.{
  Pending, pinning, receive, screen_one, limit_one, match_nodes, advance,
}
use antelope_firewall.Firewall.Concurrent.World.{run, here, next}
use antelope_firewall.PinLimiter.{PinLimiter}
use antelope_firewall.PinLimiter.Key.{pin_key}
use antelope_firewall.Tests.Apis.{urls, floats, headers, addresses, jsons}
use antelope_firewall.Tests.Concurrent.{
  started, writes, env, Place, Leads, stage, pinned_read, alone,
}
use antelope_firewall.Firewall.Route.{asked_node}

asks :
    (p : Pending urls headers addresses jsons floats) × (ns : List (NodeEntry urls)) × ((alone
        pinned_read 6).tasks
      ≡ pinning p ns ∷ [])
unfolding started writes advance receive screen_one limit_one match_nodes too_big body_bytes
    body_json unpack_trx packed_trx trx_root request_info client_ip_from_headers
    Filter.should_request_pass filter_test accounts is_get is_push get_endpoints push_endpoints
    handle_cache_option should_request_pass pass_buckets charge increment update_current_window
    get_current_window roll elapsed_current_window over_limit count_for_ip finish
    should_run_before_request find_matching_urls endpoint_rule health_rule filter_healthy_urls
    get_health get insert ◌==◌ eq_ignore_ascii_case buckets_of increment_mode_of
asks = (_, _, refl)

asked_world : Place
asked_world = alone pinned_read 6

on_from_there : Leads asked_world (stage asked_world (pinning asks.0 asks.1))
unfolding asked_world
on_from_there = next here (run env (pinning asks.0 asks.1) [] [] asks.2 refl)

pin_limit : PinLimiter
pin_limit = PinLimiter.new 30 60

abbrev key : Text
key = pin_key (codes "10.0.0.1") (codes "p")
