-- ===== src/Tests/Serving.antt =====
-- An example of a configuration (antelope-firewall-lib/src/config.rs), the requests that its firewall
-- handles (antelope-firewall-lib/src/firewall_builder.rs), and a push behind them.
use antelope_firewall.Prelude.{
  map, ℕ, ◌≡◌, refl, inl, true, none, some, List, [], ◌∷◌, ◌++◌, codes, ◌==◌, ok, ok,
}
use antelope_firewall.Prelude.Maps.{get, insert}
use antelope_firewall.Prelude.Strings.{eq_ignore_ascii_case}
use antelope_firewall.Cache.{handle_cache_option}
use antelope_firewall.Config.Endpoints.{is_get, is_push, get_endpoints, push_endpoints}
use antelope_firewall.Config.NodeSet.{
  build_node_set, add_nodes, add_node, insert_parsed, is_valid_pinnable_name,
}
use antelope_firewall.De.Packing.{pack_transaction}
use antelope_firewall.Filter.{Filter, Rule, find_matching_urls}
use antelope_firewall.Filter
use antelope_firewall.PinLimiter
use antelope_firewall.Policy.{
  RequestInfo, attempt, ip, accounts, filter_test, endpoint_rule, buckets_of,
}
use antelope_firewall.RateLimiter
use antelope_firewall.RateLimiter.{
  RateLimiter, before, should_request_pass, pass_buckets, charge, increment, update_current_window,
  get_current_window, roll, elapsed_current_window, over_limit, count_for_ip, finish,
  should_run_before_request,
}
use antelope_firewall.Routing.{random, to_state, choose}
use antelope_firewall.Upstream.{client_ip_from_headers, requested_upstream}
use antelope_firewall.Firewall.Body.{
  other, options, too_big, body_bytes, body_json, unpack_trx, packed_trx, trx_root,
}
use antelope_firewall.Firewall.Route.{choose_node, asked_node, limit_pin}
use antelope_firewall.Firewall.Headers.{response_headers, name_node, may_name}
use antelope_firewall.Firewall.Replies.{get_blocked_response, get_options_response}
use antelope_firewall.Firewall.Loops.{run_filters, run_limiters, post_increments}
use antelope_firewall.Firewall.Handler
use antelope_firewall.Firewall.Handler.{
  is_options, AntelopeFirewall, Incoming, Surroundings, request_info, target_url, host_headers,
  answer, forward, route, limit, screen, handle_request, add_filter, add_ratelimiter,
  add_matching_rule, set_pin_limiter,
}
use antelope_firewall.Firewall.Assembly.{
  Config, FilterConfig, filter_sets, check_name, limiter_of, add_limiters, add_nodes_of, add_rules,
  increment_mode_of, from_config,
}
use antelope_firewall.Firewall.Serving.{Visit, serve}
use antelope_firewall.Firewall.Serving.Settings.{filter_settings}
use antelope_firewall.Firewall.Serving.Enforced.{handle_request-configured_block}
use antelope_firewall.Tests.Apis.{urls, floats, headers, addresses, Json, nothing, jsons, values}
use antelope_firewall.Tests.Packed.{burn_action, burn, burn-IsTransaction}
use antelope_firewall.Tests.Blocking.{
  as_bytes, decoder, push, silence, no_order, pushed, pushed_packed,
}

abbrev pub ban : FilterConfig
ban = record {
  block_contracts = some (codes "atomicassets" ∷ []);
  block_ips = none;
  allow_only_contracts = none;
}

abbrev pub config : Config
config = record {
  routing_mode = random;
  max_request_body_size = 65536;
  client_ip_header = none;
  pinned_requests_per_window = 30;
  pinned_window_seconds = 60;
  healthcheck = none;
  filter = some ban;
  ratelimit =
      record {
        name = codes "per_ip";
        limit_on = attempt;
        bucket_type = ip;
        limit = 10;
        window_duration = 60;
        select_accounts = none;
      }
      ∷ [];
  push_nodes = record { name = codes "p"; url = codes "p.io"; weight = none; pinnable = true } ∷ [];
  get_nodes = [];
}

abbrev early : ℕ → ℕ
early k = 0

started :
    (fw : AntelopeFirewall urls headers addresses jsons floats) × (from_config urls headers
        addresses jsons floats config early
      ≡ some (ok fw))
unfolding from_config filter_sets add_limiters check_name limiter_of RateLimiter.new
    get_current_window add_nodes_of build_node_set add_nodes add_node insert_parsed
    is_valid_pinnable_name ◌==◌ Handler.new add_filter add_ratelimiter add_matching_rule
    set_pin_limiter add_rules Filter.new to_state PinLimiter.new
started = (_, refl)

abbrev no_answer : Surroundings urls headers addresses jsons floats
no_answer = record silence { sample = λ weights. some 0 }

-- A request that no node answers and a preflight, one after the other.
abbrev visits : List (Visit urls headers addresses jsons floats)
visits =
    record {
      incoming = record push { method = other };
      peer = codes "10.0.0.1";
      surroundings = no_answer;
    }
    ∷ record {
      incoming = record push { method = options };
      peer = codes "10.0.0.2";
      surroundings = no_answer;
    }
    ∷ []

served :
    (fw : AntelopeFirewall urls headers addresses jsons floats) × (serve urls headers addresses
        jsons floats no_order as_bytes decoder started.0 visits
      ≡ some fw)
unfolding started serve handle_request too_big body_bytes body_json unpack_trx packed_trx trx_root
    screen run_filters run_limiters limit route forward answer request_info client_ip_from_headers
    Filter.should_request_pass filter_test accounts is_get is_push get_endpoints push_endpoints
    handle_cache_option should_request_pass pass_buckets charge increment update_current_window
    get_current_window roll elapsed_current_window over_limit count_for_ip finish
    should_run_before_request post_increments find_matching_urls endpoint_rule choose_node
    asked_node limit_pin requested_upstream choose target_url host_headers response_headers
    name_node may_name get insert ◌==◌ eq_ignore_ascii_case buckets_of increment_mode_of
    get_options_response
served = (_, refl)

handle_request-configured_block_example :
    (fs : List (Filter RequestInfo Json)) × (map (filter_settings nothing) fs
      ≡ map (filter_settings nothing) served.0.filters)
    × (handle_request urls headers addresses jsons floats no_order as_bytes decoder served.0 push
          (codes "10.0.0.1")
          silence
        ≡ some (record served.0 { filters = fs }, get_blocked_response))
unfolding served started too_big ◌==◌
handle_request-configured_block_example =
    handle_request-configured_block urls headers addresses jsons floats values no_order as_bytes
      config ban early started.0 served.0 visits push (codes "10.0.0.1") silence
      (codes "atomicassets" ∷ []) b'{' (pack_transaction burn ++ 0 ∷ []) pushed burn (0 ∷ [])
      burn_action refl refl refl started.1 served.1 refl refl refl refl refl pushed_packed
      burn-IsTransaction (inl refl)
