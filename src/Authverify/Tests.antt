-- ===== src/Authverify/Tests.antt =====
-- The key client at concrete instants, in nanoseconds.
use dev_health_go.Base.{◌*◌, ◌≡◌, refl, codes, eq_str, none, some, ◌⊎◌, [], ◌∷◌, replicate, Str}
use dev_health_go.Authverify.Jwks.{
  Settings, Keys, new_client, with_defaults, second, cached, cached_in, key_of, attempt, finish,
  refresh, resolve_key, resolve_missed, run, step, wait, Meanwhile, attempts, finishes,
}
use dev_health_go.Authverify.Jwks.Served.{IsServed, IsServedLater, resolve_key-IsServed}
use dev_health_go.Authverify.Jwks.Floor.{made, started, finished, Spaced, fetches-Spaced}

abbrev unset_limits : Settings
unset_limits = record {
  timeout = 0;
  max_body_bytes = 0;
  max_keys = 0;
  cache_ttl = 0;
  refresh_floor = 0;
  outage_grace = 0;
}

abbrev limits : Settings
limits = with_defaults unset_limits

abbrev key : Str
key = replicate 32 7

abbrev keys : Keys
keys = (codes "k1", key) ∷ []

-- Another caller's fetch is in flight; this call waits for it.
abbrev waiting : Meanwhile
waiting = record {
  before_attempt = attempts 2 ∷ [];
  in_flight = attempts 3 ∷ finishes (some keys) 4 ∷ [];
  fetched = none;
  at_end = 0;
  before_lookup = [];
  before_error = [];
}

resolve_key-IsServed_example :
    IsServed new_client (codes "k1") key 1 limits.cache_ttl
    ⊎ IsServedLater limits new_client (codes "k1") key 3 5 waiting
unfolding resolve_key resolve_missed cached cached_in key_of eq_str refresh run step wait attempt
    finish
resolve_key-IsServed_example =
    resolve_key-IsServed limits new_client (codes "k1") key 1 3 5 waiting refl

-- The fetch that the call waits for has not ended.
still_waiting :
    resolve_key limits new_client
      (codes "k1")
      1
      3
      5
      (record waiting { in_flight = attempts 3 ∷ [] })
    ≡ none
unfolding resolve_key resolve_missed cached refresh run step wait attempt
still_waiting = refl

fetches-Spaced_example : Spaced (30 * second) (40 * second ∷ 5 ∷ [])
unfolding attempt finish
fetches-Spaced_example =
    fetches-Spaced limits
      (attempt limits (finish (attempt limits new_client 5).0 none 9) (40 * second)).0
      (40 * second ∷ 5 ∷ [])
      (started (finish (attempt limits new_client 5).0 none 9) (5 ∷ []) (40 * second)
        (finished (attempt limits new_client 5).0 (5 ∷ []) none 9
          (started new_client [] 5 made refl) refl)
        refl)
