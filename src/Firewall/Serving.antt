-- ===== src/Firewall/Serving.antt =====
-- Requests handled one after another by `handle_request`
-- (antelope-firewall-lib/src/firewall_builder.rs), and what stays true of the firewall.
pub mod Keeping
pub mod Settings
pub mod Invariants
pub mod Enforced
use antelope_firewall.Prelude.{Option, none, some, List, [], ◌∷◌, Text}
use antelope_firewall.Node.{UrlApi}
use antelope_firewall.Policy.{JsonApi}
use antelope_firewall.RateLimiter.{F32}
use antelope_firewall.Routing.{Order}
use antelope_firewall.Upstream.{HeaderApi, IpApi}
use antelope_firewall.Firewall.Handler.{AntelopeFirewall, Incoming, Surroundings, handle_request}

module _ (u : UrlApi) (h : HeaderApi) (i : IpApi) (j : JsonApi) (f : F32) where
  -- A request, the address it comes from, and what it meets.
  pub record Visit : Type 0 where
    pub incoming : Incoming u h i j f
    pub peer : i.Ip
    pub surroundings : Surroundings u h i j f

  module _ (partial_cmp : f.Float → f.Float → Option Order) (hex_decode : Text → Option Text)
      (decode_trx : Text → Option j.Value) where
    -- The firewall after the requests, if none of them panics.
    unfoldable pub serve :
        AntelopeFirewall u h i j f → List Visit → Option (AntelopeFirewall u h i j f)
    serve fw [] = some fw
    serve fw (v ∷ vs) =
        elim (handle_request u h i j f partial_cmp hex_decode decode_trx fw v.incoming v.peer
          v.surroundings) [ none ↦ none | some (fw', reply) ↦ serve fw' vs ]
