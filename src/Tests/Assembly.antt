-- ===== src/Tests/Assembly.antt =====
-- An example of a configuration (antelope-firewall-lib/src/config.rs).
use antelope_firewall.Prelude.{
  ℕ, ◌<◌, ◌≡◌, refl, true, false, none, some, List, [], ◌∷◌, codes, ◌==◌, contains, ok, Distinct,
}
use antelope_firewall.Config.NodeSet.{
  build_node_set, add_nodes, add_node, insert_parsed, is_valid_pinnable_name,
}
use antelope_firewall.PinLimiter
use antelope_firewall.PinLimiter.{PinLimiter}
use antelope_firewall.Policy.{attempt, ip}
use antelope_firewall.RateLimiter
use antelope_firewall.RateLimiter.{get_current_window}
use antelope_firewall.Routing.{round_robin}
use antelope_firewall.Firewall.Handler.{AntelopeFirewall}
use antelope_firewall.Firewall.Assembly.{
  Config, RatelimitConfig, pin_limiter_name, filter_sets, check_name, limiter_of, add_limiters,
  add_nodes_of, from_config,
}
use antelope_firewall.Firewall.Names.{names_of_limiters, from_config_ok}
use antelope_firewall.Tests.Apis.{urls, floats, headers, addresses, jsons}

abbrev one_limiter : List RatelimitConfig
one_limiter =
    record {
      name = codes "per_ip";
      limit_on = attempt;
      bucket_type = ip;
      limit = 10;
      window_duration = 60;
      select_accounts = none;
    }
    ∷ []

abbrev config : Config
config = record {
  routing_mode = round_robin;
  max_request_body_size = 65536;
  client_ip_header = none;
  pinned_requests_per_window = 30;
  pinned_window_seconds = 60;
  healthcheck = none;
  filter = none;
  ratelimit = one_limiter;
  push_nodes = record { name = codes "p"; url = codes "p.io"; weight = none; pinnable = true } ∷ [];
  get_nodes = [];
}

abbrev early : ℕ → ℕ
early k = 0

accepted :
    (fw : AntelopeFirewall urls headers addresses jsons floats) × (from_config urls headers
        addresses jsons floats config early
      ≡ some (ok fw))
unfolding from_config filter_sets add_limiters check_name limiter_of RateLimiter.new
    get_current_window add_nodes_of build_node_set add_nodes add_node insert_parsed
    is_valid_pinnable_name ◌==◌
accepted = (_, refl)

from_config_ok_example :
    Distinct (names_of_limiters one_limiter)
    × (contains (names_of_limiters one_limiter) pin_limiter_name ≡ false)
    × (0 < 60)
    × (accepted.0.pin_limiter ≡ some (PinLimiter.new 30 60))
from_config_ok_example =
    from_config_ok urls headers addresses jsons floats config early accepted.0 accepted.1
