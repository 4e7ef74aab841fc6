-- ===== src/Tests/Apis.antt =====
-- Concrete instances of the parameters, for the examples: urls are a port, a host, a
-- path and a query, headers a
-- list of fields, floats numbers, and JSON values trees whose paths are read step by step.
use antelope_firewall.Prelude.{
  ℕ, ◌+◌, ◌-◌, ◌*◌, ◌/◌, ◌^◌, ◌≡◌, sym, refl, ap, ◌↔◌, Bool, true, false, ◌&&◌, Option, none, some,
  List, [], ◌∷◌, ◌++◌, map, arith, Text, codes, ◌==◌, text_eq_iff, text_eq_refl, eq_of_text, ltb,
  eqb, if◌then◌else◌, eqb_iff,
}
use antelope_firewall.Prelude.Strings.{eq_ignore_ascii_case, to_ascii_lowercase}
use antelope_firewall.Node.{UrlApi, option_eq, text_option_eq}
use antelope_firewall.Policy.{JsonApi}
use antelope_firewall.Firewall.Decoding.{
  Step, member, every, lookup, walk, account_steps, actor_steps, ValueApi,
}
use antelope_firewall.RateLimiter.{F32}
use antelope_firewall.Upstream.{HeaderApi, IpApi}

abbrev pub Address : Type 0
Address = ℕ × Text × Text × Option Text

abbrev parse_address : Text → Option Address
parse_address [] = none
parse_address (c ∷ cs) = some (443, c ∷ cs, codes "/", none)

abbrev address_eq : Address → Address → Bool
address_eq a b = eqb a.0 b.0 && (a.1 == b.1) && (a.2 == b.2) && option_eq ◌==◌ a.3 b.3

pub address_eq_iff : (a b : Address) → (address_eq a b ≡ true) ↔ (a ≡ b)
address_eq_iff a b =
    ground
      (arith, eqb_iff a.0 b.0, text_eq_iff a.1 b.1, text_eq_iff a.2 b.2, text_option_eq a.3 b.3)

abbrev pub urls : UrlApi
urls = record {
  Url = Address;
  url_eq = address_eq;
  parse = parse_address;
  scheme = λ a. codes "https";
  host_str = λ a. some a.1;
  port_or_known_default = λ a. some a.0;
  path = λ a. a.2;
  query = λ a. a.3;
  set_path = λ a path. (a.0, a.1, path, a.3);
  set_query = λ a query. (a.0, a.1, a.2, query);
  url_eq_iff = address_eq_iff;
  query-set_query = λ a. refl;
  path-set_query = λ a host q e. refl;
  scheme-set_path = λ a p. refl;
  host_str-set_path = λ a p. refl;
  port-set_path = λ a p. refl;
  scheme-set_query = λ a q. refl;
  host_str-set_query = λ a q. refl;
  port-set_query = λ a q. refl;
}

abbrev pub floats : F32
floats = record {
  Float = ℕ;
  one = 1;
  of_u64 = λ n. n;
  secs_f32 = λ n. n / 10 ^ 9;
  add = λ a b. a + b;
  sub = λ a b. a - b;
  mul = λ a b. a * b;
  div = λ a b. a / b;
  gt = λ a b. ltb b a;
}

-- A JSON value: an object and an array are chains of their fields and elements.
pub data Json : Type 0 where
  nothing no_fields no_items : Json
  num : ℕ → Json
  str : Text → Json
  field : Text → Json → Json → Json
  item : Json → Json → Json

abbrev json_is_object : Json → Bool
json_is_object no_fields = true
json_is_object (field n v r) = true
json_is_object nothing = false
json_is_object no_items = false
json_is_object (num n) = false
json_is_object (str t) = false
json_is_object (item v r) = false

abbrev json_as_str : Json → Option Text
json_as_str (str t) = some t
json_as_str nothing = none
json_as_str no_fields = none
json_as_str no_items = none
json_as_str (num n) = none
json_as_str (field n v r) = none
json_as_str (item v r) = none

abbrev json_get : Text → Json → Option Json
json_get name (field n v r) = if n == name then some v else json_get name r
json_get name nothing = none
json_get name no_fields = none
json_get name no_items = none
json_get name (num n) = none
json_get name (str t) = none
json_get name (item v r) = none

abbrev json_elements : Json → List Json
json_elements (item v r) = v ∷ json_elements r
json_elements nothing = []
json_elements no_fields = []
json_elements no_items = []
json_elements (num n) = []
json_elements (str t) = []
json_elements (field n v r) = []

abbrev json_array : List Json → Json
json_array [] = no_items
json_array (v ∷ vs) = item v (json_array vs)

abbrev json_object : List (Text × Json) → Json
json_object [] = no_fields
json_object ((n, v) ∷ fields) = field n v (json_object fields)

-- The steps of a path, behind its `$`: what stands between the dots.
abbrev segments : Text → Text → List Text
segments seg [] = seg ∷ []
segments seg (c ∷ cs) =
    let here = segments [] cs in
    let on = segments (seg ++ c ∷ []) cs in if eqb c b'.' then seg ∷ here else on

abbrev step_of : Text → Step
step_of seg = if seg == codes "*" then every else member seg

abbrev steps_of : Text → List Step
steps_of path = elim (segments [] path) [ [] ↦ [] | root ∷ segs ↦ map step_of segs ]

abbrev json_select : Text → Json → List Json
json_select path v = walk json_get json_elements (steps_of path) (v ∷ [])

abbrev json_parse : Text → Option Json
json_parse [] = none
json_parse (c ∷ cs) =
    if eqb c b'{' then some (field (codes "packed_trx") (str cs) no_fields) else none

abbrev pub jsons : JsonApi
jsons = record {
  Value = Json;
  null = nothing;
  parse_json = json_parse;
  is_object = json_is_object;
  as_str = json_as_str;
  get_field = json_get;
  insert_field = field;
  select = json_select;
}

pub elements-array : (vs : List Json) → json_elements (json_array vs) ≡ vs
elements-array [] = refl
elements-array (v ∷ vs) = ap (λ t. v ∷ t) (elements-array vs)

pub get_field-object :
    (name : Text) (fields : List (Text × Json))
    → json_get name (json_object fields) ≡ lookup name fields
get_field-object name [] = refl
get_field-object name ((n, v) ∷ fields) = ground (arith, get_field-object name fields)

pub get_field-insert_field :
    (name : Text) (v root : Json) → json_get name (field name v root) ≡ some v
get_field-insert_field name v root = ground (arith, text_eq_refl name)

pub account_path : steps_of (codes "$.unpacked_trx.actions.*.account") ≡ account_steps
unfolding ◌==◌
account_path = refl

pub actor_path : steps_of (codes "$.unpacked_trx.actions.*.authorization.*.actor") ≡ actor_steps
unfolding ◌==◌
actor_path = refl

abbrev pub values : ValueApi jsons
values = record {
  number = num;
  string = str;
  array = json_array;
  object = json_object;
  elements = json_elements;
  as_str-string = λ t. refl;
  elements-array = elements-array;
  get_field-object = get_field-object;
  get_field-insert_field = get_field-insert_field;
  select-accounts = λ v. ap (λ steps. walk json_get json_elements steps (v ∷ [])) account_path;
  select-actors = λ v. ap (λ steps. walk json_get json_elements steps (v ∷ [])) actor_path;
}

abbrev Fields : Type 0
Fields = List (Text × Text)

abbrev fields_all : Fields → Text → List Text
fields_all [] m = []
fields_all ((n, v) ∷ h) m =
    let rest = fields_all h m in if eq_ignore_ascii_case n m then v ∷ rest else rest

abbrev fields_remove : Fields → Text → Fields
fields_remove [] m = []
fields_remove ((n, v) ∷ h) m =
    let rest = fields_remove h m in if eq_ignore_ascii_case n m then rest else (n, v) ∷ rest

pub fields_all-append :
    (h : Fields) (n m v : Text)
    → fields_all (h ++ (n, v) ∷ []) m
      ≡ (if eq_ignore_ascii_case n m then fields_all h m ++ v ∷ [] else fields_all h m)
fields_all-append [] n m v = ground arith
fields_all-append ((j, w) ∷ h) n m v = ground (arith, fields_all-append h n m v)

ignore_case_join :
    (a b c : Text)
    → eq_ignore_ascii_case a b ≡ true
    → eq_ignore_ascii_case c a ≡ eq_ignore_ascii_case c b
unfolding eq_ignore_ascii_case
ignore_case_join a b c h =
    ap (λ t. map to_ascii_lowercase c == t)
      (eq_of_text (map to_ascii_lowercase a) (map to_ascii_lowercase b) h)

ignore_case_left :
    (a b c : Text)
    → eq_ignore_ascii_case a b ≡ true
    → eq_ignore_ascii_case a c ≡ eq_ignore_ascii_case b c
unfolding eq_ignore_ascii_case
ignore_case_left a b c h =
    ap (λ t. t == map to_ascii_lowercase c)
      (eq_of_text (map to_ascii_lowercase a) (map to_ascii_lowercase b) h)

pub fields_all-remove :
    (h : Fields) (n m : Text)
    → fields_all (fields_remove h n) m ≡ (if eq_ignore_ascii_case n m then [] else fields_all h m)
fields_all-remove [] n m = ground arith
fields_all-remove ((j, w) ∷ h) n m =
    ground (arith, fields_all-remove h n m, ignore_case_join n m j, ignore_case_left j n m)

pub fields_all-insert :
    (h : Fields) (n m v : Text)
    → fields_all (fields_remove h n ++ (n, v) ∷ []) m
      ≡ (if eq_ignore_ascii_case n m then v ∷ [] else fields_all h m)
fields_all-insert h n m v =
    ground (arith, fields_all-append (fields_remove h n) n m v, fields_all-remove h n m)

abbrev pub headers : HeaderApi
headers = record {
  Headers = Fields;
  HeaderValue = Text;
  from_str = λ t. some t;
  from_static = λ t. t;
  to_str = λ v. some v;
  get_all = fields_all;
  insert = λ h n v. fields_remove h n ++ (n, v) ∷ [];
  append = λ h n v. h ++ (n, v) ∷ [];
  remove = fields_remove;
  to_str_from_str = λ t v e. sym e;
  get_all-insert = fields_all-insert;
  get_all-append = λ h n m v. fields_all-append h n m v;
  get_all-remove = fields_all-remove;
}

abbrev pub addresses : IpApi
addresses = record { Ip = Text; parse_ip = λ t. some t; show_ip = λ a. a }
