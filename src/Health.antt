-- ===== src/Health.antt =====
-- `HealthChecker` of antelope-firewall-lib/src/healthcheck.rs: the map from node urls to their
-- health, the rounds that fill it and the filter that reads it. What a node answers and the time
-- are inputs; times are numbers from the earliest date, and `parse_time` is chrono's parser.
pub mod History
use antelope_firewall.Prelude.{
  ℕ, ◌-◌, Bool, true, false, Option, none, some, List, [], ◌∷◌, Text, leb, if◌then◌else◌, keep,
  Result, ok, err, ◌>>=◌, ok_or,
}
use antelope_firewall.Node.{UrlApi, NodeEntry}

-- What sending `get_info` to a node can bring: no response or an error status, a body that is not
-- the JSON expected, or the text of `head_block_time`.
pub data NodeAnswer : Type 0 where
  failed : Text → NodeAnswer
  bad_json : Text → NodeAnswer
  head_block_time : Text → NodeAnswer

pub data HealthError : Type 0 where
  request_error : Text → HealthError
  json_error : Text → HealthError
  datetime_error : HealthError
  too_old : ℕ → ℕ → HealthError

abbrev is_fresh : ℕ → ℕ → Result HealthError (Unit {0})
is_fresh healthy_after parsed =
    if leb healthy_after parsed then ok tt else err (too_old parsed healthy_after)

unfoldable pub categorize_response_healthy :
    (Text → Option ℕ) → NodeAnswer → ℕ → ℕ → Result HealthError (Unit {0})
categorize_response_healthy parse_time (failed e) now grace = err (request_error e)
categorize_response_healthy parse_time (bad_json e) now grace = err (json_error e)
categorize_response_healthy parse_time (head_block_time t) now grace =
    ok_or (parse_time t) datetime_error >>= is_fresh (now - grace)

abbrev pub is_ok : {E A : Type 0} → Result E A → Bool
is_ok (ok a) = true
is_ok (err e) = false

module _ (u : UrlApi) where
  open u use {Url, url_eq}

  abbrev pub HealthMap : Type 0
  HealthMap = List (Url × Bool)

  unfoldable pub get_health : Url → HealthMap → Option Bool
  get_health url [] = none
  get_health url ((v, b) ∷ m) = if url_eq v url then some b else get_health url m

  unfoldable pub insert_health : Url → Bool → HealthMap → HealthMap
  insert_health url b [] = (url, b) ∷ []
  insert_health url b ((v, c) ∷ m) =
      if url_eq v url then (v, b) ∷ m else (v, c) ∷ insert_health url b m

  pub record HealthChecker : Type 0 where
    pub nodes : List Url
    pub grace_period : ℕ
    pub healthy_map : HealthMap

  -- `start`, without the task: every node begins healthy.
  unfoldable pub mark_all : List Url → HealthMap → HealthMap
  mark_all [] m = m
  mark_all (url ∷ urls) m = mark_all urls (insert_health url true m)

  unfoldable pub start : List Url → ℕ → HealthChecker
  start nodes grace_period = record {
    nodes = nodes;
    grace_period = grace_period;
    healthy_map = mark_all nodes [];
  }

  -- One check of one node, by the task's loop.
  unfoldable pub check_node :
      (Text → Option ℕ) → HealthChecker → Url → NodeAnswer → ℕ → HealthChecker
  check_node parse_time c url answer now = record c {
    healthy_map =
        insert_health url (is_ok (categorize_response_healthy parse_time answer now c.grace_period))
          c.healthy_map;
  }

  abbrev pub unwrap_or_false : Option Bool → Bool
  unwrap_or_false none = false
  unwrap_or_false (some b) = b

  unfoldable pub is_healthy : HealthChecker → Url → Bool
  is_healthy c url = unwrap_or_false (get_health url c.healthy_map)

  unfoldable pub filter_healthy_urls : HealthChecker → List (NodeEntry u) → List (NodeEntry u)
  filter_healthy_urls c nodes =
      keep (λ node. unwrap_or_false (get_health node.url c.healthy_map)) nodes
