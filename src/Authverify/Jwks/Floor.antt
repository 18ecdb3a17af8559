-- ===== src/Authverify/Jwks/Floor.antt =====
-- How often keys are fetched (authverify/jwks_client.go, refresh and NewJWKSClient).
use dev_health_go.Base.{
  ℕ, ◌*◌, ◌+◌, ◌≤◌, ◌≡◌, ◌≢◌, refl, true, false, Option, none, some, arith, List, [], ◌∷◌,
}
use dev_health_go.Authverify.Jwks.{
  Settings, Keys, Client, new_client, attempt, fetches, finish, new_limits, second,
}

-- The callers' sections so far: `Reaches c s starts` says that the client can be `s` after fetches that
-- were started at these readings of the clock, the last one first. A fetch finishes only while one is in
-- flight.
pub data Reaches (c : Settings) : Client → List ℕ → Type 0 where
  made : Reaches c new_client []
  refused :
      (s : Client) (starts : List ℕ) (now : ℕ)
      → Reaches c s starts
      → (attempt c s now).1 ≢ fetches
      → Reaches c (attempt c s now).0 starts
  started :
      (s : Client) (starts : List ℕ) (now : ℕ)
      → Reaches c s starts
      → (attempt c s now).1 ≡ fetches
      → Reaches c (attempt c s now).0 (now ∷ starts)
  finished :
      (s : Client) (starts : List ℕ) (fetched : Option Keys) (now : ℕ)
      → Reaches c s starts
      → s.inflight ≡ true
      → Reaches c (finish s fetched now) starts

-- Each start is a floor or more after the one before it.
abbrev pub Spaced : ℕ → List ℕ → Type 0
Spaced gap [] = Unit {0}
Spaced gap (t ∷ []) = Unit {0}
Spaced gap (t ∷ (u ∷ starts)) = (u + gap ≤ t) × Spaced gap (u ∷ starts)

abbrev Last : Client → List ℕ → Type 0
Last s [] = s.attempted ≡ false
Last s (t ∷ starts) = (s.attempted ≡ true) × (s.last_attempt ≡ t)

Last-mono :
    (s u : Client) (starts : List ℕ)
    → u.attempted ≡ s.attempted
    → u.last_attempt ≡ s.last_attempt
    → Last s starts
    → Last u starts
Last-mono s u [] a l h = ground arith
Last-mono s u (t ∷ starts) a l h = ground arith

attempt-refused :
    (c : Settings) (s : Client) (now : ℕ)
    → (attempt c s now).1 ≢ fetches
    → ((attempt c s now).0.attempted ≡ s.attempted)
      × ((attempt c s now).0.last_attempt ≡ s.last_attempt)
unfolding attempt
attempt-refused c s now h = (ground arith, ground arith)

attempt-started :
    (c : Settings) (s : Client) (now : ℕ)
    → (attempt c s now).1 ≡ fetches
    → ((attempt c s now).0.attempted ≡ true)
      × ((attempt c s now).0.last_attempt ≡ now)
      × (s.attempted ≡ true → s.last_attempt + c.refresh_floor ≤ now)
unfolding attempt
attempt-started c s now h = (ground arith, ground arith, λ a. ground arith)

finish-keeps :
    (s : Client) (fetched : Option Keys) (now : ℕ)
    → ((finish s fetched now).attempted ≡ s.attempted)
      × ((finish s fetched now).last_attempt ≡ s.last_attempt)
unfolding finish
finish-keeps s none now = (refl, refl)
finish-keeps s (some ks) now = (refl, refl)

Spaced-on :
    (c : Settings) (s : Client) (starts : List ℕ) (now : ℕ)
    → Last s starts
    → Spaced c.refresh_floor starts
    → (s.attempted ≡ true → s.last_attempt + c.refresh_floor ≤ now)
    → Spaced c.refresh_floor (now ∷ starts)
Spaced-on c s [] now l p f = tt
Spaced-on c s (t ∷ starts) now (a, l) p f = (ground (arith, f a), p)

spaced :
    (c : Settings) (s : Client) (starts : List ℕ)
    → Reaches c s starts
    → Last s starts × Spaced c.refresh_floor starts
spaced c _ _ made = (refl, tt)
spaced c _ _ (refused s starts now r other) =
    let (l, p) = spaced c s starts r in
    let (a, b) = attempt-refused c s now other in (Last-mono s (attempt c s now).0 starts a b l, p)
spaced c _ _ (started s starts now r go) =
    let (l, p) = spaced c s starts r in
    let (a, b, f) = attempt-started c s now go in ((a, b), Spaced-on c s starts now l p f)
spaced c _ _ (finished s starts fetched now r on) =
    let (l, p) = spaced c s starts r in
    let (a, b) = finish-keeps s fetched now in (Last-mono s (finish s fetched now) starts a b l, p)

-- Whatever callers do, and whether fetches succeed or fail, each fetch starts at least RefreshFloor after
-- the one before it.
pub fetches-Spaced :
    (c : Settings) (s : Client) (starts : List ℕ)
    → Reaches c s starts
    → Spaced c.refresh_floor starts
fetches-Spaced c s starts r = (spaced c s starts r).1

-- The limits that NewJWKSClient accepts: none is 0, the floor is at most CacheTTL, CacheTTL and
-- OutageGrace are at most an hour, and Timeout is at most 30 seconds.
pub new_limits-bounds :
    (given c : Settings)
    → new_limits given ≡ some c
    → (1 ≤ c.refresh_floor)
      × (c.refresh_floor ≤ c.cache_ttl)
      × (c.cache_ttl ≤ 3600 * second)
      × (1 ≤ c.outage_grace)
      × (c.outage_grace ≤ 3600 * second)
      × (1 ≤ c.timeout)
      × (c.timeout ≤ 30 * second)
      × (1 ≤ c.max_keys)
      × (1 ≤ c.max_body_bytes)
unfolding new_limits
new_limits-bounds given c h = (
  ground arith,
  ground arith,
  ground arith,
  ground arith,
  ground arith,
  ground arith,
  ground arith,
  ground arith,
  ground arith,
)
