-- ===== src/Tests/Handler.antt =====
-- Examples of whole requests (antelope-firewall-lib/src/firewall_builder.rs).
use antelope_firewall.Prelude.{
  List, ◌⊎◌, ◌==◌, ℕ, ◌+◌, ◌≡◌, refl, true, Option, none, some, [], ◌∷◌, Text, codes, ok,
}
use antelope_firewall.Cache.{handle_cache_option}
use antelope_firewall.Node.{NodeEntry}
use antelope_firewall.Config.Endpoints.{is_get, is_push, get_endpoints, push_endpoints}
use antelope_firewall.Filter.{Filter}
use antelope_firewall.Filter
use antelope_firewall.Policy.{RequestInfo, accounts, filter_test, endpoint_rule}
use antelope_firewall.RateLimiter.{RateLimiter, before, should_request_pass}
use antelope_firewall.Routing.{random_state, Order}
use antelope_firewall.Upstream.{client_ip_from_headers}
use antelope_firewall.Firewall.Body.{
  post, options, too_big, body_bytes, body_json, unpack_trx, packed_trx, trx_root,
}
use antelope_firewall.Firewall.Replies.{
  Field, plain_text, own, get_blocked_response, get_options_response,
}
use antelope_firewall.Firewall.Loops.{run_filters}
use antelope_firewall.Firewall.Handler.{
  AntelopeFirewall, Incoming, Surroundings, request_info, screen, handle_request,
}
use antelope_firewall.Firewall.Refusing.{
  SameRouting, Matched, handle_request-own, handle_request-options,
}
use antelope_firewall.Tests.Apis.{urls, floats, headers, addresses, Json, jsons}

abbrev push_node : NodeEntry urls
push_node = record {
  url = (443, codes "p.io", codes "/", none);
  weight = 1;
  name = codes "p";
  pinnable = true;
}

abbrev base_filter : Filter RequestInfo Json
base_filter = record {
  name = codes "Filter";
  test = filter_test jsons (codes "10.0.0.9" ∷ []) [] [];
  cache = none;
  processed = 0;
  denied = 0;
  accepted = 0;
}

abbrev per_address : RateLimiter RequestInfo Json (Json × ℕ)
per_address = record {
  name = codes "per_address";
  should_be_limited = λ request value json. true;
  get_buckets = λ name request value json. request.ip ∷ [];
  get_ratelimit = λ request value json. 3;
  increment_mode = before (λ request value json. 1);
  cache = none;
  window_duration = 60;
  state = record { window = 0; last = []; current = [] };
  processed = 0;
  denied = 0;
  accepted = 0;
}

abbrev firewall : AntelopeFirewall urls headers addresses jsons floats
firewall = record {
  filters = base_filter ∷ [];
  ratelimiters = per_address ∷ [];
  rules = endpoint_rule jsons urls [] (push_node ∷ []) ∷ [];
  routing_mode = random_state;
  max_request_body_size = 100;
  client_ip_header = none;
  pin_limiter = none;
}

abbrev push : Incoming urls headers addresses jsons floats
push = record {
  method = post;
  path = codes "/v1/chain/push_transaction";
  query = none;
  headers = [];
  size_upper = some 2;
  body = some (codes "{}");
}

abbrev no_order : ℕ → ℕ → Option Order
no_order a b = none

abbrev no_hex : Text → Option Text
no_hex t = none

abbrev no_trx : Text → Option Json
no_trx t = none

abbrev surroundings : Surroundings urls headers addresses jsons floats
surroundings = record {
  clock = λ i k. k + 1;
  pin_now = 0;
  sample = λ weights. some 0;
  send = λ url hs bytes. some (record {
    status = 202;
    answered_by = url;
    headers = (codes "X-Id", codes "7") ∷ [];
    body = some (codes "{}");
  });
}

abbrev after_push : AntelopeFirewall urls headers addresses jsons floats
after_push = record firewall {
  filters = record base_filter { processed = 1; accepted = 1 } ∷ [];
  ratelimiters =
      record per_address {
        state = record { window = 0; last = []; current = (codes "10.0.0.1", 1) ∷ [] };
        processed = 1;
        accepted = 1;
      }
      ∷ [];
}

abbrev info : RequestInfo
info = request_info urls headers addresses jsons floats firewall push (codes "10.0.0.1")

abbrev after_block : AntelopeFirewall urls headers addresses jsons floats
after_block = record firewall { filters = record base_filter { processed = 1; denied = 1 } ∷ [] }

block_handled :
    handle_request urls headers addresses jsons floats no_order no_hex no_trx firewall push
      (codes "10.0.0.9")
      surroundings
    ≡ some (after_block, own 403 (plain_text ∷ []) [])
unfolding handle_request too_big body_bytes body_json unpack_trx packed_trx trx_root screen
    run_filters request_info client_ip_from_headers Filter.should_request_pass filter_test is_get
    is_push get_endpoints push_endpoints handle_cache_option get_blocked_response ◌==◌
block_handled = refl

handle_request-own_example :
    SameRouting urls headers addresses jsons floats no_order firewall after_block
    ⊎ ((bytes : Text) × (json : Json) × (body_bytes push.method push.body ≡ ok bytes)
        × (body_json jsons no_hex no_trx push.method bytes ≡ ok json)
        × Matched urls headers addresses jsons floats no_order firewall
            (request_info urls headers addresses jsons floats firewall push (codes "10.0.0.9"))
            json
            403)
handle_request-own_example =
    handle_request-own urls headers addresses jsons floats no_order no_hex no_trx firewall
      after_block push (codes "10.0.0.9") surroundings 403 (plain_text ∷ []) [] block_handled

abbrev preflight : Incoming urls headers addresses jsons floats
preflight = record push { method = options }

abbrev after_preflight : AntelopeFirewall urls headers addresses jsons floats
after_preflight = record firewall {
  filters = record base_filter { processed = 1; accepted = 1 } ∷ [];
}

preflight_handled :
    handle_request urls headers addresses jsons floats no_order no_hex no_trx firewall preflight
      (codes "10.0.0.1")
      surroundings
    ≡ some (after_preflight, get_options_response)
unfolding handle_request too_big body_bytes body_json unpack_trx packed_trx trx_root screen
    run_filters request_info client_ip_from_headers Filter.should_request_pass filter_test is_get
    is_push get_endpoints push_endpoints handle_cache_option accounts ◌==◌
preflight_handled = refl

handle_request-options_example :
    (after_preflight.ratelimiters ≡ firewall.ratelimiters)
    × SameRouting urls headers addresses jsons floats no_order firewall after_preflight
    × ((status : ℕ) × (fields : List Field) × (b : Text) × (get_options_response
            {Headers = headers.Headers}
          ≡ own status fields b))
handle_request-options_example =
    handle_request-options urls headers addresses jsons floats no_order no_hex no_trx firewall
      after_preflight preflight (codes "10.0.0.1") surroundings get_options_response refl
      preflight_handled
