-- ===== src/Firewall/Blocked.antt =====
-- A push that calls a blocked contract, from its bytes to the answer of `handle_request`
-- (antelope-firewall-lib/src/firewall_builder.rs).
use antelope_firewall.Prelude.{
  ℕ, ◌≡◌, sym, ap, ◌∙◌, subst, inl, inr, true, false, Option, none, some, List, [], ◌∷◌, ◌++◌, map,
  arith, Text, In, All-In, Bool-cases, contains,
}
use antelope_firewall.Node.{UrlApi}
use antelope_firewall.Cache.{handle_cache_option}
use antelope_firewall.Filter.{Filter, should_request_pass}
use antelope_firewall.Policy.{JsonApi, RequestInfo, accounts, filter_test}
use antelope_firewall.Policy.Contracts.{filter_test_sound}
use antelope_firewall.RateLimiter.{F32}
use antelope_firewall.Routing.{Order}
use antelope_firewall.Upstream.{HeaderApi, IpApi}
use antelope_firewall.De.Transaction.{Action, Transaction}
use antelope_firewall.De.Packing.{IsTransaction, pack_transaction}
use antelope_firewall.Firewall.Unpacking.{Carries}
use antelope_firewall.Firewall.Body.{post, too_big, body_bytes, body_json, unpack_trx}
use antelope_firewall.Firewall.Decoding.{ValueApi, decode_trx}
use antelope_firewall.Firewall.Blocking.{unpack_trx-pack_transaction}
use antelope_firewall.Firewall.Replies.{get_blocked_response}
use antelope_firewall.Firewall.Loops.{run_filters}
use antelope_firewall.Firewall.Serving.Settings.{filter_settings, run_filters-settings}
use antelope_firewall.Firewall.Handler.{
  AntelopeFirewall, Incoming, Surroundings, request_info, screen, handle_request,
}

In-map : {A B : Type 0} (k : A → B) (a : A) (xs : List A) → In a xs → In (k a) (map k xs)
In-map k a [] m = m
In-map k a (x ∷ xs) (inl e) = inl (ap k e)
In-map k a (x ∷ xs) (inr m) = inr (In-map k a xs m)

-- One filter that refuses is enough.
run_filters-refused :
    {Request Value : Type 0} (null : Value) (fs : List (Filter Request Value))
    (f : Filter Request Value) (request : Request) (value : Value)
    → In f fs
    → (should_request_pass null f request value).1 ≡ false
    → (run_filters null fs request value).1 ≡ false
unfolding run_filters
run_filters-refused null [] f request value m e = absurd m
run_filters-refused null (g ∷ fs) f request value (inl m) e =
    let e' = subst (λ k. (should_request_pass null k request value).1 ≡ false) m e in
    ground (arith, e')
run_filters-refused null (g ∷ fs) f request value (inr m) e =
    ground (arith, run_filters-refused null fs f request value m e)

filter_test-blocked :
    (j : JsonApi) (blocked_ips blocked allow : List Text) (req : RequestInfo) (body json : j.Value)
    (account : Text)
    → In account (accounts j body)
    → contains blocked account ≡ true
    → filter_test j blocked_ips blocked allow req body json ≡ false
filter_test-blocked j blocked_ips blocked allow req body json account m c =
    elim (Bool-cases (filter_test j blocked_ips blocked allow req body json)) [
      | inr e ↦ e
      | inl e ↦
          let sound = filter_test_sound j blocked_ips blocked allow req body json e in
          let listed = All-In _ (accounts j body) sound.2 m in ground (arith, c, listed.0)
    ]

-- A filter without a cache passes what its test passes on the null value.
should_request_pass-uncached :
    {Request Value : Type 0} (null : Value) (f : Filter Request Value) (request : Request)
    (value : Value)
    → f.cache ≡ none
    → (should_request_pass null f request value).1 ≡ f.test request value null
unfolding should_request_pass handle_cache_option
should_request_pass-uncached null f request value e = ground (arith, e)

module _ (u : UrlApi) (h : HeaderApi) (i : IpApi) (j : JsonApi) (f : F32) (s : ValueApi j)
    (partial_cmp : f.Float → f.Float → Option Order) (hex_decode : Text → Option Text) where
  open j use {Value, parse_json, is_object}

  -- A POST within the size limit whose body is an object that packs a transaction, in the object in
  -- its field transaction or, where it has no field transaction, in itself, one of whose actions calls a contract on the block list of some filter of the firewall, is
  -- answered: with the blocked response, after which only the counters of the filters can differ.
  -- No node is asked, and no limiter, pin or routing counter is touched, whatever field
  -- unpacked_trx the client wrote.
  pub handle_request-blocked :
      (fw : AntelopeFirewall u h i j f) (inc : Incoming u h i j f) (peer : i.Ip)
      (env : Surroundings u h i j f) (filter : Filter RequestInfo Value)
      (blocked_ips blocked allow : List Text) (b : ℕ) (bytes : Text) (root : Value)
      (t : Transaction) (rest : List ℕ) (a : Action)
      → In filter fw.filters
      → filter.test ≡ filter_test j blocked_ips blocked allow
      → filter.cache ≡ none
      → too_big inc.size_upper fw.max_request_body_size ≡ false
      → inc.method ≡ post
      → inc.body ≡ some (b ∷ bytes)
      → parse_json (b ∷ bytes) ≡ some root
      → is_object root ≡ true
      → Carries j hex_decode root (pack_transaction t ++ rest)
      → IsTransaction t
      → In a t.actions
      → contains blocked a.account ≡ true
      → (fs : List (Filter RequestInfo Value)) × (map (filter_settings j.null) fs
          ≡ map (filter_settings j.null) fw.filters)
        × (handle_request u h i j f partial_cmp hex_decode (decode_trx j s) fw inc peer env
            ≡ some (record fw { filters = fs }, get_blocked_response))
  unfolding handle_request screen body_bytes body_json
  handle_request-blocked fw inc peer env filter blocked_ips blocked allow b bytes root t rest a
        member test cache small method body parses object packed v calls listed =
      let req = request_info u h i j f fw inc peer in
      let json = unpack_trx j hex_decode (decode_trx j s) root in
      let read = (unpack_trx-pack_transaction j s hex_decode root t rest v object packed).0 in
      let found : In a.account (accounts j json) =
        subst (In a.account) (sym read) (In-map (λ c. c.account) a t.actions calls) in
      let refused : (should_request_pass j.null filter req json).1 ≡ false =
        should_request_pass-uncached j.null filter req json cache
        ∙ ap (λ test'. test' req json j.null) test
        ∙ filter_test-blocked j blocked_ips blocked allow req json j.null a.account found listed in
      let stopped = run_filters-refused j.null fw.filters filter req json member refused in
      (
        (run_filters j.null fw.filters req json).0,
        run_filters-settings j.null fw.filters req json,
        ground (arith, small, method, body, parses, stopped),
      )
