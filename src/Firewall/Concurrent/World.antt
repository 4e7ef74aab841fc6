-- ===== src/Firewall/Concurrent/World.antt =====
-- Requests that are handled at once (antelope-firewall-lib/src/firewall_builder.rs): each runs its
-- stages, in any order among the requests, while the task of the health checker
-- (antelope-firewall-lib/src/healthcheck.rs) changes the map that the second matching rule reads.
use antelope_firewall.Prelude.{ℕ, ◌≡◌, Option, none, some, List, [], ◌∷◌, ◌++◌, Text}
use antelope_firewall.Node.{UrlApi, NodeEntry}
use antelope_firewall.Filter.{Rule}
use antelope_firewall.Health.{HealthChecker, NodeAnswer, check_node}
use antelope_firewall.Policy.{JsonApi, RequestInfo, endpoint_rule, health_rule}
use antelope_firewall.RateLimiter.{F32}
use antelope_firewall.Routing.{Order}
use antelope_firewall.Upstream.{HeaderApi, IpApi}
use antelope_firewall.Firewall.Handler.{AntelopeFirewall, Incoming, Surroundings}
use antelope_firewall.Firewall.Concurrent.{Task, arrived, advance}

module _ (u : UrlApi) (h : HeaderApi) (i : IpApi) (j : JsonApi) (f : F32) where
  -- The matching rules with the health checker as it is.
  abbrev pub rules_at :
      List (NodeEntry u)
      → List (NodeEntry u)
      → Option (HealthChecker u)
      → List (Rule RequestInfo j.Value (NodeEntry u))
  rules_at gets pushes none = endpoint_rule j u gets pushes ∷ []
  rules_at gets pushes (some checker) =
      endpoint_rule j u gets pushes ∷ health_rule j u (some checker) ∷ []

  pub record World : Type 0 where
    pub firewall : AntelopeFirewall u h i j f
    pub health : Option (HealthChecker u)
    pub tasks : List (Task u h i j f)

  module _ (partial_cmp : f.Float → f.Float → Option Order) (hex_decode : Text → Option Text)
      (decode_trx : Text → Option j.Value) (parse_time : Text → Option ℕ)
      (gets pushes : List (NodeEntry u)) where
    -- A request arrives, a request goes one stage on, or a node is checked.
    pub data Move (w : World) : World → Type 0 where
      arrive :
          {w' : World} (inc : Incoming u h i j f) (peer : i.Ip)
          → w' ≡ record w { tasks = w.tasks ++ arrived inc peer ∷ [] }
          → Move w w'
      run :
          {w' : World} (env : Surroundings u h i j f) (t : Task u h i j f)
          (before after : List (Task u h i j f))
          → w.tasks ≡ before ++ t ∷ after
          → w' ≡ record w {
            firewall = (advance u h i j f partial_cmp hex_decode decode_trx env w.firewall t).0;
            tasks =
                before
                ++ (advance u h i j f partial_cmp hex_decode decode_trx env w.firewall t).1 ∷ after;
          }
          → Move w w'
      check :
          {w' : World} (checker : HealthChecker u) (url : u.Url) (answer : NodeAnswer) (now : ℕ)
          → w.health ≡ some checker
          → w' ≡ record w {
            health = some (check_node u parse_time checker url answer now);
            firewall = record w.firewall {
              rules = rules_at gets pushes (some (check_node u parse_time checker url answer now));
            };
          }
          → Move w w'

    pub data Reach (first : World) : World → Type 0 where
      here : Reach first first
      next : {w w' : World} → Reach first w → Move w w' → Reach first w'
