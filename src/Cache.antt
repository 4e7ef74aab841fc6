-- ===== src/Cache.antt =====
-- `JsonDataCache` of antelope-firewall-lib/src/json_data_cache.rs: the value that a background task
-- fetches, with the state of its last fetch. The JSON type belongs to the crate serde_json.
use antelope_firewall.Prelude.{◌≡◌, refl, Option, none, some, List, [], ◌∷◌, Text}

pub data JsonDataCacheStatus : Type 0 where
  fresh : JsonDataCacheStatus
  uninitialized : JsonDataCacheStatus
  unable_to_fetch : Text → JsonDataCacheStatus
  invalid_response : Text → JsonDataCacheStatus

-- What one fetch of the task can meet: no response, a response of another status, a body that is
-- no JSON, or a JSON value.
pub data Fetch (Value : Type 0) : Type 0 where
  no_response : Text → Fetch Value
  bad_status : Text → Fetch Value
  bad_body : Text → Fetch Value
  fetched : Value → Fetch Value

pub record JsonDataCache (Value : Type 0) : Type 0 where
  pub json : Value
  pub status : JsonDataCacheStatus

module _ {Value : Type 0} (null : Value) where
  unfoldable pub new : JsonDataCache Value
  new = record { json = null; status = uninitialized }

  -- One round of the task's loop.
  unfoldable pub refresh : JsonDataCache Value → Fetch Value → JsonDataCache Value
  refresh c (no_response e) = record c { status = unable_to_fetch e }
  refresh c (bad_status e) = record c { status = unable_to_fetch e }
  refresh c (bad_body e) = record c { status = invalid_response e }
  refresh c (fetched v) = record { json = v; status = fresh }

  unfoldable pub refresh_all : JsonDataCache Value → List (Fetch Value) → JsonDataCache Value
  refresh_all c [] = c
  refresh_all c (f ∷ fs) = refresh_all (refresh c f) fs

  abbrev read_status : JsonDataCacheStatus → Value → Option Value
  read_status fresh json = some json
  read_status uninitialized json = none
  read_status (unable_to_fetch e) json = none
  read_status (invalid_response e) json = none

  unfoldable pub handle_cache_option : Option (JsonDataCache Value) → Option Value
  handle_cache_option none = some null
  handle_cache_option (some c) = read_status c.status c.json

  -- The value of the last fetch, if it brought one.
  abbrev pub last_fetched : Option Value → List (Fetch Value) → Option Value
  last_fetched v [] = v
  last_fetched v (no_response e ∷ fs) = last_fetched none fs
  last_fetched v (bad_status e ∷ fs) = last_fetched none fs
  last_fetched v (bad_body e ∷ fs) = last_fetched none fs
  last_fetched v (fetched w ∷ fs) = last_fetched (some w) fs

  refresh_all-lem :
      (c : JsonDataCache Value) (fs : List (Fetch Value))
      → handle_cache_option (some (refresh_all c fs))
        ≡ last_fetched (handle_cache_option (some c)) fs
  unfolding refresh_all refresh handle_cache_option
  refresh_all-lem c [] = refl
  refresh_all-lem c (no_response e ∷ fs) = refresh_all-lem (refresh c (no_response e)) fs
  refresh_all-lem c (bad_status e ∷ fs) = refresh_all-lem (refresh c (bad_status e)) fs
  refresh_all-lem c (bad_body e ∷ fs) = refresh_all-lem (refresh c (bad_body e)) fs
  refresh_all-lem c (fetched v ∷ fs) = refresh_all-lem (refresh c (fetched v)) fs

  -- After any fetches a cache gives out the value of the last one if that brought a value, and
  -- nothing before the first fetch or after one that failed: no stale value and no null.
  pub handle_cache_option-last :
      (fs : List (Fetch Value))
      → handle_cache_option (some (refresh_all new fs)) ≡ last_fetched none fs
  unfolding new
  handle_cache_option-last fs = unfold handle_cache_option in refresh_all-lem new fs
