-- ===== src/Firewall/Concurrent/Reached.antt =====
-- The firewall that `from_config` (antelope-firewall-lib/src/config.rs) builds, with any number of
-- requests in it at once (antelope-firewall-lib/src/firewall_builder.rs) and the checks of its nodes
-- (antelope-firewall-lib/src/healthcheck.rs) between their stages.
use antelope_firewall.Prelude.{
  ℕ, ◌≡◌, refl, sym, subst, ◌↔◌, ◌⊎◌, true, Option, some, List, [], ◌∷◌, Text, In, All, ok,
  All-append,
}
use antelope_firewall.Config.Endpoints.{is_get, is_push}
use antelope_firewall.Config.NodeSet.{build_node_set}
use antelope_firewall.Node.{UrlApi, NodeEntry}
use antelope_firewall.Filter.{Filter}
use antelope_firewall.Filter
use antelope_firewall.Health.{HealthChecker, check_node}
use antelope_firewall.PinLimiter.Bounds.{new-IsValid}
use antelope_firewall.Policy.{JsonApi}
use antelope_firewall.Policy.Laws.{passes_health, matched_iff}
use antelope_firewall.RateLimiter.{F32}
use antelope_firewall.Routing.{Order}
use antelope_firewall.Upstream.{HeaderApi, IpApi}
use antelope_firewall.Firewall.Handler.{AntelopeFirewall}
use antelope_firewall.Firewall.Assembly.{Config, from_config}
use antelope_firewall.Firewall.Names.{from_config_ok}
use antelope_firewall.Firewall.Serving.Invariants.{Kept, PinsKept}
use antelope_firewall.Firewall.Concurrent.{Pending, arrived, pinning, match_nodes, advance}
use antelope_firewall.Firewall.Concurrent.Places.{All-replace}
use antelope_firewall.Firewall.Concurrent.Keeping.{advance-Kept}
use antelope_firewall.Firewall.Concurrent.Sound.{Sound}
use antelope_firewall.Firewall.Concurrent.Sound.Advance.{match_nodes-rules, advance-Sound}
use antelope_firewall.Firewall.Concurrent.World.{
  World, Move, arrive, run, check, Reach, here, next, rules_at,
}
use antelope_firewall.Firewall.Concurrent.Opened.{from_config-rules, opened}

module _ (u : UrlApi) (h : HeaderApi) (i : IpApi) (j : JsonApi) (f : F32)
    (partial_cmp : f.Float → f.Float → Option Order) (hex_decode : Text → Option Text)
    (decode_trx : Text → Option j.Value) (parse_time : Text → Option ℕ)
    (gets pushes : List (NodeEntry u)) where
  open j use {Value, null}

  abbrev WorldKept : AntelopeFirewall u h i j f → World u h i j f → Type 0
  WorldKept first w =
      Kept u h i j f partial_cmp hex_decode decode_trx
        (record first { rules = rules_at u h i j f gets pushes w.health }) w.firewall

  record Good (first : AntelopeFirewall u h i j f) (w : World u h i j f) : Type 0 where
    kept : WorldKept first w
    sound : All (Sound u h i j f partial_cmp hex_decode decode_trx gets pushes first) w.tasks

  checked-Kept :
      (first : AntelopeFirewall u h i j f) (w : World u h i j f) (checker : HealthChecker u)
      → WorldKept first w
      → WorldKept first (record w {
        health = some checker;
        firewall = record w.firewall { rules = rules_at u h i j f gets pushes (some checker) };
      })
  checked-Kept first w checker kept = record {
    filters = kept.filters;
    ratelimiters = kept.ratelimiters;
    rules = refl;
    max_request_body_size = kept.max_request_body_size;
    client_ip_header = kept.client_ip_header;
    pins = kept.pins;
  }

  Move-Good :
      (first : AntelopeFirewall u h i j f) {w w' : World u h i j f}
      → Good first w
      → Move u h i j f partial_cmp hex_decode decode_trx parse_time gets pushes w w'
      → Good first w'
  Move-Good first {w} good (arrive inc peer e) = subst (Good first) (sym e) (record {
    kept = good.kept;
    sound =
        All-append (Sound u h i j f partial_cmp hex_decode decode_trx gets pushes first) w.tasks
          (arrived inc peer ∷ []) good.sound (tt, tt);
  })
  Move-Good first {w} good (run env t before after at_t e) =
      let P = Sound u h i j f partial_cmp hex_decode decode_trx gets pushes first in
      let t' = (advance u h i j f partial_cmp hex_decode decode_trx env w.firewall t).1 in
      subst (Good first) (sym e) (record {
        kept =
            advance-Kept u h i j f partial_cmp hex_decode decode_trx
              (record first { rules = rules_at u h i j f gets pushes w.health }) env w.firewall t
              good.kept;
        sound =
            All-replace P before after t t'
              (advance-Sound u h i j f partial_cmp hex_decode decode_trx gets pushes first env
                w.health w.firewall t good.kept)
              (subst (All P) at_t good.sound);
      })
  Move-Good first {w} good (check checker url answer now has e) =
      subst (Good first) (sym e) (record {
        kept = checked-Kept first w (check_node u parse_time checker url answer now) good.kept;
        sound = good.sound;
      })

  Reach-Good :
      (first : AntelopeFirewall u h i j f) (w0 : World u h i j f) {w : World u h i j f}
      → Good first w0
      → Reach u h i j f partial_cmp hex_decode decode_trx parse_time gets pushes w0 w
      → Good first w
  Reach-Good first w0 good here = good
  Reach-Good first w0 good (next r m) = Move-Good first (Reach-Good first w0 good r) m

  module _ (config : Config) (clock : ℕ → ℕ) (first : AntelopeFirewall u h i j f)
      (w : World u h i j f) (reads : build_node_set u config.get_nodes ≡ ok gets)
      (writes : build_node_set u config.push_nodes ≡ ok pushes)
      (built : from_config u h i j f config clock ≡ some (ok first))
      (reached : Reach u h i j f partial_cmp hex_decode decode_trx parse_time gets pushes
        (opened u h i j f config first gets pushes)
        w) where
    reached-Good : Good first w
    reached-Good =
        Reach-Good first (opened u h i j f config first gets pushes)
          (record {
            kept = record {
              filters = refl;
              ratelimiters = refl;
              rules = from_config-rules u h i j f config clock first gets pushes reads writes built;
              max_request_body_size = refl;
              client_ip_header = refl;
              pins =
                  subst (λ p. PinsKept p p)
                    (sym (from_config_ok u h i j f config clock first built).3)
                    (
                      new-IsValid config.pinned_requests_per_window config.pinned_window_seconds,
                      refl,
                      refl,
                    );
            };
            sound = tt;
          })
          reached

    -- Whatever requests a firewall that was built from a configuration has in it at once, however
    -- their stages and the checks of its nodes are interleaved: its filters keep their tests, its
    -- rate limiters all but their windows and counters, its size limit and client address header
    -- stand, its matching rules are those of the configured nodes with the health checker as it is,
    -- and its pin limiter keeps its limit and its window, has one slot per key, at most the ceiling
    -- on keys, and no count above the limit.
    pub Reach-Kept :
        Kept u h i j f partial_cmp hex_decode decode_trx
          (record first { rules = rules_at u h i j f gets pushes w.health })
          w.firewall
    Reach-Kept = reached-Good.kept

    -- Whatever requests a firewall that was built from a configuration has in it at once, however
    -- their stages and the checks of its nodes are interleaved: a request that matches any node goes
    -- on with exactly the configured nodes of its endpoint that the health checker, where there is
    -- one, holds healthy at that stage.
    pub Reach-matching :
        (p : Pending u h i j f) (urls : List (NodeEntry u)) (node : NodeEntry u)
        → match_nodes u h i j f partial_cmp hex_decode decode_trx w.firewall p ≡ pinning p urls
        → In node urls ↔ (
            (((is_get p.info.path ≡ true) × In node gets)
              ⊎ ((is_push p.info.path ≡ true) × In node pushes))
            × (passes_health j u w.health node ≡ true))
    Reach-matching p urls node e =
        let same =
          match_nodes-rules u h i j f partial_cmp hex_decode decode_trx gets pushes first w.firewall
            w.health p urls reached-Good.kept.rules e in
        subst
          (λ ns. In node ns ↔ (
            (((is_get p.info.path ≡ true) × In node gets)
              ⊎ ((is_push p.info.path ≡ true) × In node pushes))
            × (passes_health j u w.health node ≡ true)))
          same (matched_iff j u gets pushes w.health p.info p.json node)
