-- ===== src/Tests/Requests.antt =====
-- Examples of the caches, the filter, the buckets, the matching and the request body
-- (antelope-firewall-lib/src/config.rs, antelope-firewall-lib/src/firewall_builder.rs,
-- antelope-firewall-lib/src/filter.rs, antelope-firewall-lib/src/json_data_cache.rs).
use antelope_firewall.Prelude.{
  ◌==◌, ◌≡◌, refl, ◌⊎◌, inl, inr, true, false, none, some, List, [], ◌∷◌, Text, codes, In, All,
  contains,
}
use antelope_firewall.Node.{NodeEntry}
use antelope_firewall.Config.Endpoints.{is_get, is_push, get_endpoints, push_endpoints}
use antelope_firewall.Health.{HealthChecker, start, is_healthy, get_health, mark_all, insert_health}
use antelope_firewall.Cache.{
  fetched, no_response, new, refresh_all, handle_cache_option, handle_cache_option-last,
}
use antelope_firewall.Policy.{RequestInfo, accounts, filter_test}
use antelope_firewall.Policy.Contracts.{Permits, filter_test_iff}
use antelope_firewall.Policy.Laws.{matched, matched_iff}
use antelope_firewall.Tests.Apis.{Json, nothing, no_fields, no_items, str, field, item, jsons, urls}

abbrev push : RequestInfo
push = record { path = codes "/v1/chain/push_transaction"; query = none; ip = codes "10.0.0.1" }

-- A body whose decoded actions call one contract.
abbrev transfer : Json
transfer =
    field (codes "unpacked_trx")
      (field (codes "actions")
        (item (field (codes "account") (str (codes "eosio.token")) no_fields) no_items) no_fields)
      no_fields

handle_cache_option-last_example :
    handle_cache_option nothing (
      some
        (refresh_all nothing (new nothing) (fetched transfer ∷ no_response (codes "timeout") ∷ [])))
    ≡ none
handle_cache_option-last_example =
    handle_cache_option-last nothing (fetched transfer ∷ no_response (codes "timeout") ∷ [])

abbrev evil : List Text
evil = codes "evil" ∷ []

abbrev nobody : List Text
nobody = []

filter_test_iff_example :
    ((is_push push.path ≡ true) ⊎ (is_get push.path ≡ true))
    × (contains nobody push.ip ≡ false)
    × All (Permits jsons evil nobody) (accounts jsons transfer)
unfolding filter_test accounts is_push is_get push_endpoints get_endpoints ◌==◌
filter_test_iff_example = (filter_test_iff jsons [] evil [] push transfer nothing).0 refl

abbrev push_node : NodeEntry urls
push_node = record {
  url = (443, codes "p.io", codes "/", none);
  weight = 1;
  name = codes "p";
  pinnable = true;
}

abbrev checker : HealthChecker urls
checker = start urls (push_node.url ∷ []) 60

matched_iff_example :
    In push_node (matched jsons urls [] (push_node ∷ []) (some checker) push transfer)
unfolding is_push push_endpoints start is_healthy get_health mark_all insert_health ◌==◌
matched_iff_example =
    (matched_iff jsons urls [] (push_node ∷ []) (some checker) push transfer push_node).1
      (inr (refl, inl refl), refl)
