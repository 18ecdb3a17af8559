-- ===== src/Authverify/Jwks.antt =====
-- authverify/jwks_client.go: the client that keeps one issuer's keys. Instants are nanoseconds. A fetch
-- is two sections that hold the mutex, one before it and one after; what it gives, keys or a failure, is
-- an argument. A negative setting is refused by the source and has no counterpart here.
pub mod Served
pub mod Floor
use dev_health_go.Base.{
  ℕ, ◌+◌, ◌-◌, ◌*◌, ◌==◌, Str, eq_str, length, List, [], ◌∷◌, Bool, true, false, not, ◌&&◌, ◌||◌,
  ltb, leb, Option, none, some, ◌⊎◌, inl, inr, if◌then◌else◌, is_some,
}

-- JWKSClientConfig
pub record Settings : Type 0 where
  pub timeout : ℕ
  pub max_body_bytes : ℕ
  pub max_keys : ℕ
  pub cache_ttl : ℕ
  pub refresh_floor : ℕ
  pub outage_grace : ℕ

abbrev pub second : ℕ
second = 1_000_000_000

abbrev or_default : ℕ → ℕ → ℕ
or_default n default = if n == 0 then default else n

abbrev pub with_defaults : Settings → Settings
with_defaults c = record {
  timeout = or_default c.timeout (5 * second);
  max_body_bytes = or_default c.max_body_bytes 65_536;
  max_keys = or_default c.max_keys 32;
  cache_ttl = or_default c.cache_ttl (300 * second);
  refresh_floor = or_default c.refresh_floor (30 * second);
  outage_grace = or_default c.outage_grace (600 * second);
}

abbrev out_of_bounds : Settings → Bool
out_of_bounds c =
    ltb (30 * second) c.timeout
    || ltb (3600 * second) c.cache_ttl
    || ltb c.cache_ttl c.refresh_floor
    || ltb (3600 * second) c.outage_grace

-- The limits of NewJWKSClient, behind its check of the issuer: none is the startup error.
unfoldable pub new_limits : Settings → Option Settings
new_limits c = if out_of_bounds (with_defaults c) then none else some (with_defaults c)

abbrev pub Keys : Type 0
Keys = List (Str × Str)

pub record Client : Type 0 where
  pub keys : Option Keys
  pub fetched_at : ℕ
  pub last_attempt : ℕ
  pub attempted : Bool
  pub inflight : Bool
  pub last_err : Bool

abbrev pub new_client : Client
new_client = record {
  keys = none;
  fetched_at = 0;
  last_attempt = 0;
  attempted = false;
  inflight = false;
  last_err = false;
}

abbrev key_size : ℕ
key_size = 32

unfoldable pub key_of : Str → Keys → Option Str
key_of kid [] = none
key_of kid ((k, key) ∷ ks) = if eq_str k kid then some key else key_of kid ks

abbrev sized : Option Str → Option Str
sized none = none
sized (some key) = if length key == key_size then some key else none

-- `age >= n`, where the age is negative when the clock stepped back.
abbrev aged : Client → ℕ → ℕ → Bool
aged s now n = leb (s.fetched_at + n) now

-- `cached` with the keys in hand.
unfoldable pub cached_in : Settings → Client → Str → ℕ → Bool → Keys → Option Str
unfolding key_of
cached_in c s kid now after_refresh ks =
    if aged s now c.cache_ttl && (not after_refresh || aged s now (c.cache_ttl + c.outage_grace))
    then none
    else sized (key_of kid ks)

unfoldable pub cached : Settings → Client → Str → ℕ → Bool → Option Str
cached c s kid now after_refresh = elim s.keys [
  | none ↦ none
  | some ks ↦ cached_in c s kid now after_refresh ks
]

-- What the first section of `refresh` does: wait for the fetch in flight, refuse inside the floor, fetch.
pub data Attempt : Type 0 where
  joins too_soon fetches : Attempt

unfoldable pub attempt : Settings → Client → ℕ → Client × Attempt
attempt c s now =
    if s.inflight
    then (s, joins)
    else if s.attempted && ltb now (s.last_attempt + c.refresh_floor)
    then (s, too_soon)
    else (record s { inflight = true; last_attempt = now; attempted = true }, fetches)

-- The second section: none is a failed fetch.
unfoldable pub finish : Client → Option Keys → ℕ → Client
finish s none now = record s { inflight = false; last_err = true }
finish s (some ks) now = record s {
  inflight = false;
  last_err = false;
  keys = some ks;
  fetched_at = now;
}

-- What PublicKey and ResolveKey answer: a key, an unknown key, or a source that is unavailable.
pub data Resolution : Type 0 where
  resolved : Str → Resolution
  unknown unavailable : Resolution

-- A section of some caller: the first of a refresh, or the second, which runs only while a fetch is in flight.
-- A lookup changes nothing.
pub data Section : Type 0 where
  attempts : ℕ → Section
  finishes : Option Keys → ℕ → Section

unfoldable pub step : Settings → Client → Section → Client
unfolding attempt finish
step c s (attempts now) = (attempt c s now).0
step c s (finishes fetched now) = if s.inflight then finish s fetched now else s

unfoldable pub run : Settings → Client → List Section → Client
unfolding step
run c s [] = s
run c s (x ∷ xs) = run c (step c s x) xs

-- `<-flight.done`: other callers' sections up to the end of the fetch that is in flight; none where it has not
-- ended.
unfoldable pub wait : Settings → Client → List Section → Option Client
unfolding step
wait c s [] = none
wait c s (attempts now ∷ xs) = wait c (step c s (attempts now)) xs
wait c s (finishes fetched now ∷ xs) = some (step c s (finishes fetched now))

-- What the rest of a call meets: the sections of others while it waits, its own fetch and the reading of
-- the clock at its end, and the sections of others between the call's own.
pub record Meanwhile : Type 0 where
  pub before_attempt : List Section
  pub in_flight : List Section
  pub fetched : Option Keys
  pub at_end : ℕ
  pub before_lookup : List Section
  pub before_error : List Section

abbrev pub refresh_by : Settings → Client × Attempt → Meanwhile → Option Client
refresh_by c (s, joins) m = wait c s m.in_flight
refresh_by c (s, too_soon) m = some s
refresh_by c (s, fetches) m = some (finish s m.fetched m.at_end)

-- `refresh`: none while it still waits. While the call's own fetch is in flight only the call itself ends it,
-- and the attempts of others join it, which changes nothing.
unfoldable pub refresh : Settings → Client → ℕ → Meanwhile → Option Client
unfolding wait
refresh c s now m = refresh_by c (attempt c s now) m

-- The end of PublicKey and of ResolveKey, once the refresh is over.
unfoldable pub resolve_missed : Settings → Client → List Section → Option Str → Resolution
unfolding run
resolve_missed c s before_error (some key) = resolved key
resolve_missed c s before_error none =
    if (run c s before_error).last_err then unavailable else unknown

abbrev pub resolve_after : Settings → Option Client → Str → ℕ → Meanwhile → Option Resolution
resolve_after c none kid now m = none
resolve_after c (some s) kid now m =
    let at = run c s m.before_lookup in
    some (resolve_missed c at m.before_error (cached c at kid now true))

-- ResolveKey with what it meets: the readings of the clock are the lookup's, the attempt's and the second
-- lookup's. None is a call that still waits for another's fetch.
unfoldable pub resolve_key : Settings → Client → Str → ℕ → ℕ → ℕ → Meanwhile → Option Resolution
unfolding refresh run
resolve_key c s kid at_first at_attempt at_last m =
    elim (cached c s kid at_first false) as (λ x. Option Resolution) [
      | some key ↦ some (resolved key)
      | none ↦ resolve_after c (refresh c (run c s m.before_attempt) at_attempt m) kid at_last m
    ]
