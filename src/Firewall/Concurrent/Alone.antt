-- ===== src/Firewall/Concurrent/Alone.antt =====
-- The stages of one request with no other request between them come to what `handle_request`
-- (antelope-firewall-lib/src/firewall_builder.rs) comes to.
pub mod Sending
pub mod Limiting
pub mod Whole
use antelope_firewall.Prelude.{◌≡◌, sym, subst, Option, none, some, Text}
use antelope_firewall.Node.{UrlApi}
use antelope_firewall.Filter
use antelope_firewall.Policy.{JsonApi}
use antelope_firewall.RateLimiter.{F32}
use antelope_firewall.Routing.{Order}
use antelope_firewall.Upstream.{HeaderApi, IpApi}
use antelope_firewall.Firewall.Replies.{Reply}
use antelope_firewall.Firewall.Handler.{AntelopeFirewall, Surroundings}
use antelope_firewall.Firewall.Concurrent.{Task, replied, panicked, advance}

module _ (u : UrlApi) (h : HeaderApi) (i : IpApi) (j : JsonApi) (f : F32)
    (partial_cmp : f.Float → f.Float → Option Order) (hex_decode : Text → Option Text)
    (decode_trx : Text → Option j.Value) (env : Surroundings u h i j f) where
  open h use {Headers}
  open j use {Value, null, parse_json}

  abbrev pub Shared : Type 0
  Shared = AntelopeFirewall u h i j f

  -- The stages of a request, one after the other.
  pub data Alone (fw' : Shared) (t' : Task u h i j f) : Shared → Task u h i j f → Type 0 where
    done : Alone fw' t' fw' t'
    step :
        (fw : Shared) (t : Task u h i j f)
        → Alone fw' t'
            (advance u h i j f partial_cmp hex_decode decode_trx env fw t).0
            (advance u h i j f partial_cmp hex_decode decode_trx env fw t).1
        → Alone fw' t' fw t

  -- They end as a result of `handle_request` says: in its state with its reply, or in a panic.
  abbrev pub Ends : Option (Shared × Reply Headers) → Shared → Task u h i j f → Type 0
  Ends none fw t = (fw' : Shared) × Alone fw' panicked fw t
  Ends (some (fw', reply)) fw t = Alone fw' (replied reply) fw t

  abbrev pub next : Shared → Task u h i j f → Shared × Task u h i j f
  next = advance u h i j f partial_cmp hex_decode decode_trx env

  -- One stage, and what the rest of the request ends as.
  pub Ends-step :
      (result rest : Option (Shared × Reply Headers)) (fw : Shared) (t : Task u h i j f)
      (after : Shared × Task u h i j f)
      → result ≡ rest
      → next fw t ≡ after
      → Ends rest after.0 after.1
      → Ends result fw t
  Ends-step result none fw t after r e (fw', k) =
      subst (λ a. Ends a fw t) (sym r)
        (fw', step fw t (subst (λ a. Alone fw' panicked a.0 a.1) (sym e) k))
  Ends-step result (some (fw', reply)) fw t after r e k =
      subst (λ a. Ends a fw t) (sym r)
        (step fw t (subst (λ a. Alone fw' (replied reply) a.0 a.1) (sym e) k))

  pub Ends-panic :
      (result : Option (Shared × Reply Headers)) (fw fw' : Shared) (t : Task u h i j f)
      → result ≡ none
      → next fw t ≡ (fw', panicked)
      → Ends result fw t
  Ends-panic result fw fw' t r e = Ends-step result none fw t (fw', panicked) r e (fw', done)

  pub Ends-reply :
      (result : Option (Shared × Reply Headers)) (fw fw' : Shared) (t : Task u h i j f)
      (reply : Reply Headers)
      → result ≡ some (fw', reply)
      → next fw t ≡ (fw', replied reply)
      → Ends result fw t
  Ends-reply result fw fw' t reply r e =
      Ends-step result (some (fw', reply)) fw t (fw', replied reply) r e done
