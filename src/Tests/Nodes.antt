-- ===== src/Tests/Nodes.antt =====
-- Examples of the node set, upstream affinity, routing and health
-- (antelope-firewall-lib/src/config.rs, antelope-firewall-lib/src/firewall_builder.rs,
-- antelope-firewall-lib/src/healthcheck.rs).
use antelope_firewall.Prelude.{
  ◌==◌, ℕ, ◌≡◌, refl, ◌≢◌, inl, inr, true, Option, none, some, List, [], ◌∷◌, arith, Text, codes,
  In, ok, err,
}
use antelope_firewall.Prelude.Strings.{strip_prefix}
use antelope_firewall.Node.{NodeEntry}
use antelope_firewall.Config.Endpoints.{is_get, get_endpoints}
use antelope_firewall.Config.NodeSet.{
  Node, duplicate_url, build_node_set, add_nodes, add_node, insert_parsed, is_valid_pinnable_name,
}
use antelope_firewall.Config.NodeSet.Laws.{build_node_set_iff, build_node_set-ne-duplicate_url}
use antelope_firewall.Upstream.{upstream_param, find_pinned, upstream_header}
use antelope_firewall.Upstream.Pinned.{find_pinned_iff}
use antelope_firewall.Upstream.Query.{upstream_param-query}
use antelope_firewall.Routing.{
  round_robin_state, Order, sum_weights, choose, fetch_add, to_state, round_robin,
}
use antelope_firewall.Routing.Choice.{choose-round_robin_total, round_robin_stuck}
use antelope_firewall.Health.{
  failed, head_block_time, start, is_healthy, categorize_response_healthy,
}
use antelope_firewall.Health.History.{Check, run_checks, is_healthy-last}
use antelope_firewall.Policy.{RequestInfo, bind_option}
use antelope_firewall.Firewall.Route.{choose_node, choose_node-write}
use antelope_firewall.Firewall.Headers.{response_headers}
use antelope_firewall.Firewall.Naming.{Owing, response_headers-upstream}
use antelope_firewall.Tests.Apis.{urls, floats, headers}

abbrev entry_a : NodeEntry urls
entry_a = record {
  url = (443, codes "a.io", codes "/", none);
  weight = 2;
  name = codes "a";
  pinnable = true;
}

abbrev entry_b : NodeEntry urls
entry_b = record {
  url = (443, codes "b.io", codes "/", none);
  weight = 1;
  name = codes "b";
  pinnable = true;
}

abbrev configured : List Node
configured =
    record { name = codes "b"; url = codes "b.io"; weight = none; pinnable = true }
    ∷ record { name = codes "a"; url = codes "a.io"; weight = some 2; pinnable = true }
    ∷ []

abbrev entries : List (NodeEntry urls)
entries = entry_a ∷ entry_b ∷ []

abbrev no_order : ℕ → ℕ → Option Order
no_order a b = none

build_node_set_iff_example : build_node_set urls configured ≡ ok entries
unfolding is_valid_pinnable_name ◌==◌
build_node_set_iff_example =
    (build_node_set_iff urls configured entries).1
      (refl, ((omega arith, inr (refl, refl), refl), ((omega arith, inr (refl, refl), refl), tt)))

built : build_node_set urls configured ≡ ok entries
unfolding build_node_set add_nodes add_node insert_parsed is_valid_pinnable_name ◌==◌
built = refl

build_node_set-ne-duplicate_url_example :
    build_node_set urls configured ≢ err (duplicate_url (codes "a"))
build_node_set-ne-duplicate_url_example =
    build_node_set-ne-duplicate_url urls configured (codes "a")

find_pinned_iff_example : find_pinned urls (codes "b") (entry_b ∷ []) ≡ some entry_b
find_pinned_iff_example =
    (find_pinned_iff urls configured entries (entry_b ∷ []) (codes "b") entry_b built
        (inr (inl refl), tt)).1
      (inl refl, (refl, refl))

upstream_param-query_example :
    (upstream_param (some (codes "json=1&upstream=b")) ≡ some (codes "b"))
    × (upstream_param (some (codes "json=1&upstream=b&x=2")) ≡ some (codes "b"))
unfolding strip_prefix
upstream_param-query_example =
    upstream_param-query (codes "json=1" ∷ []) (codes "b") (codes "x=2") ((refl, refl), tt) refl
      refl

abbrev get_info : Text
get_info = codes "/v1/chain/get_info"

abbrev no_sample : List ℕ → Option ℕ
no_sample weights = none

choose-round_robin_total_example :
    (e : NodeEntry urls) × (choose urls floats no_order
        (round_robin_state [])
        no_sample
        get_info
        entries
      ≡ some (some e, round_robin_state (fetch_add urls get_info []).1))
    × In e entries
unfolding sum_weights
choose-round_robin_total_example =
    choose-round_robin_total urls floats no_order [] no_sample get_info entries (omega arith)
      (omega arith)

round_robin_stuck_example :
    choose urls floats no_order (to_state round_robin) no_sample get_info entries
    ≡ some (some entry_a, to_state round_robin)
unfolding sum_weights
round_robin_stuck_example =
    round_robin_stuck urls floats no_order no_sample get_info entry_a (entry_b ∷ []) (omega arith)
      (omega arith)

abbrev clock_text : Text → Option ℕ
clock_text [] = none
clock_text (c ∷ cs) = some c

abbrev checks : List (Check urls)
checks =
    record { url = entry_a.url; answer = failed (codes "refused"); now = 50 }
    ∷ record { url = entry_b.url; answer = failed (codes "refused"); now = 50 }
    ∷ record { url = entry_b.url; answer = head_block_time (55 ∷ []); now = 60 }
    ∷ []

is_healthy-last_example :
    is_healthy urls
      (run_checks urls clock_text (start urls (entry_a.url ∷ entry_b.url ∷ []) 10) checks)
      entry_b.url
    ≡ true
unfolding categorize_response_healthy ◌==◌
is_healthy-last_example =
    is_healthy-last urls clock_text (entry_a.url ∷ entry_b.url ∷ []) 10 entry_b.url checks

abbrev read_b : RequestInfo
read_b = record { path = get_info; query = some (codes "upstream=b"); ip = codes "10.0.0.1" }

abbrev write_b : RequestInfo
write_b = record read_b { path = codes "/v1/chain/push_transaction" }

choose_node-write_example :
    choose_node urls floats no_order write_b 0 no_sample none (round_robin_state []) entries
    ≡ bind_option
        (choose urls floats no_order (round_robin_state []) no_sample write_b.path entries)
        (λ (chosen, mode'). some (chosen, none, mode'))
unfolding is_get get_endpoints ◌==◌
choose_node-write_example =
    choose_node-write urls floats no_order write_b 0 no_sample none (round_robin_state []) entries
      refl

abbrev sent : List (Text × Text)
sent =
    (codes "X-ANTELOPE-UPSTREAM", codes "forged")
    ∷ (codes "Access-Control-Expose-Headers", codes "ETag")
    ∷ (codes "X-Id", codes "7")
    ∷ []

response_headers-upstream_example : Owing urls headers get_info entry_b.url (some entry_b) (
    headers.get_all
      (response_headers urls headers get_info entry_b.url (some entry_b) sent)
      upstream_header)
response_headers-upstream_example =
    response_headers-upstream urls headers get_info entry_b.url (some entry_b) sent
