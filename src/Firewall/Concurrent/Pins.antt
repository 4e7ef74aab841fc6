-- ===== src/Firewall/Concurrent/Pins.antt =====
-- The pin limiter (antelope-firewall-lib/src/firewall_builder.rs) under requests that are handled at
-- once: its calls in the order of the stages that make them.
use antelope_firewall.Prelude.{
  ℕ, ◌+◌, ◌≡◌, Option, none, some, List, [], ◌∷◌, ◌++◌, Text, ◌==◌, if◌then◌else◌,
}
use antelope_firewall.Node.{UrlApi, NodeEntry}
use antelope_firewall.PinLimiter
use antelope_firewall.PinLimiter.{PinLimiter, admitted}
use antelope_firewall.PinLimiter.Key.{pin_key}
use antelope_firewall.Policy.{JsonApi}
use antelope_firewall.RateLimiter.{F32}
use antelope_firewall.Routing.{Order}
use antelope_firewall.Upstream.{HeaderApi, IpApi}
use antelope_firewall.Firewall.Route.{asked_node, limit_pin}
use antelope_firewall.Firewall.Handler.{AntelopeFirewall, Surroundings}
use antelope_firewall.Firewall.Assembly.{Config}
use antelope_firewall.Firewall.Concurrent.{
  Task, arrived, screening, limiting, matching, pinning, choosing, sending, counting, replied,
  panicked, advance,
}
use antelope_firewall.Firewall.Concurrent.World.{World, Move, arrive, run, check, Reach, here, next}

module _ (u : UrlApi) (h : HeaderApi) (i : IpApi) (j : JsonApi) (f : F32)
    (partial_cmp : f.Float → f.Float → Option Order) (hex_decode : Text → Option Text)
    (decode_trx : Text → Option j.Value) where
  open j use {null}

  -- The call that a request makes of the limiter, if it asks for a matched node.
  abbrev call_of : Text → ℕ → Option (NodeEntry u) → List (Text × ℕ)
  call_of ip now none = []
  call_of ip now (some node) = (pin_key ip node.name, now) ∷ []

  abbrev pin_of : Text → Text → Option (NodeEntry u) → ℕ
  pin_of k ip none = 0
  pin_of k ip (some node) = if pin_key ip node.name == k then 1 else 0

  -- The call of a stage, and the pin that it gives to a key.
  abbrev stage_calls : Surroundings u h i j f → Task u h i j f → List (Text × ℕ)
  stage_calls env (arrived inc peer) = []
  stage_calls env (screening p k) = []
  stage_calls env (limiting p k) = []
  stage_calls env (matching p) = []
  stage_calls env (pinning p urls) = call_of p.info.ip env.pin_now (asked_node u p.info urls)
  stage_calls env (choosing p urls) = []
  stage_calls env (sending p chosen) = []
  stage_calls env (counting req json a reply k) = []
  stage_calls env (replied reply) = []
  stage_calls env panicked = []

  abbrev stage_pins :
      Text → AntelopeFirewall u h i j f → Surroundings u h i j f → Task u h i j f → ℕ
  stage_pins key fw env (arrived inc peer) = 0
  stage_pins key fw env (screening p k) = 0
  stage_pins key fw env (limiting p k) = 0
  stage_pins key fw env (matching p) = 0
  stage_pins key fw env (pinning p urls) =
      pin_of key p.info.ip
        (limit_pin u p.info env.pin_now fw.pin_limiter (asked_node u p.info urls)).0
  stage_pins key fw env (choosing p urls) = 0
  stage_pins key fw env (sending p chosen) = 0
  stage_pins key fw env (counting req json a reply k) = 0
  stage_pins key fw env (replied reply) = 0
  stage_pins key fw env panicked = 0

  abbrev After :
      Text
      → PinLimiter
      → Surroundings u h i j f
      → AntelopeFirewall u h i j f
      → Task u h i j f
      → Type 0
  After key l env fw t =
      ((advance u h i j f partial_cmp hex_decode decode_trx env fw t).0.pin_limiter
        ≡ some (PinLimiter.run l (stage_calls env t)))
      × (stage_pins key fw env t ≡ admitted key l (stage_calls env t))

  module _ (parse_time : Text → Option ℕ) (gets pushes : List (NodeEntry u)) where
    abbrev Moves : World u h i j f → World u h i j f → Type 0
    Moves = Move u h i j f partial_cmp hex_decode decode_trx parse_time gets pushes

    abbrev Leads : World u h i j f → World u h i j f → Type 0
    Leads = Reach u h i j f partial_cmp hex_decode decode_trx parse_time gets pushes

    abbrev move_calls : {w w' : World u h i j f} → Moves w w' → List (Text × ℕ)
    move_calls (arrive inc peer e) = []
    move_calls (run env t before after at_t e) = stage_calls env t
    move_calls (check checker url answer now has e) = []

    abbrev move_pins : {w w' : World u h i j f} → Text → Moves w w' → ℕ
    move_pins key (arrive inc peer e) = 0
    move_pins {w} key (run env t before after at_t e) = stage_pins key w.firewall env t
    move_pins key (check checker url answer now has e) = 0

    -- All calls of the limiter on the way, in order, and the pins that they gave to a key.
    abbrev pub pin_calls : {w w' : World u h i j f} → Leads w w' → List (Text × ℕ)
    pin_calls here = []
    pin_calls (next r m) = pin_calls r ++ move_calls m

    abbrev pub pins : {w w' : World u h i j f} → Text → Leads w w' → ℕ
    pins key here = 0
    pins key (next r m) = pins key r + move_pins key m
