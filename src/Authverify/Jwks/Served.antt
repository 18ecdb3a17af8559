-- ===== src/Authverify/Jwks/Served.antt =====
-- Which keys are served (authverify/jwks_client.go, cached and ResolveKey).
use dev_health_go.Base.{
  ℕ, ◌+◌, ◌<◌, ◌≡◌, refl, Str, length, Bool, true, false, Option, none, some, ◌⊎◌, inl, inr, arith,
}
use dev_health_go.Authverify.Jwks.{
  Settings, Keys, Client, key_of, cached_in, cached, resolved, Meanwhile, run, refresh,
  resolve_missed, resolve_after, resolve_key,
}

-- A key of the keys last fetched, less than `bound` ago, with the length of an Ed25519 key.
pub record IsServed (s : Client) (kid key : Str) (now bound : ℕ) : Type 0 where
  pub keys : Keys
  pub held : s.keys ≡ some keys
  pub named : key_of kid keys ≡ some key
  pub sized : length key ≡ 32
  pub young : now < s.fetched_at + bound

abbrev bound_of : Settings → Bool → ℕ
bound_of c true = c.cache_ttl + c.outage_grace
bound_of c false = c.cache_ttl

cached-IsServed :
    (c : Settings) (s : Client) (kid key : Str) (now : ℕ) (after : Bool)
    → cached c s kid now after ≡ some key
    → IsServed s kid key now (bound_of c after)
unfolding cached cached_in
cached-IsServed c s kid key now after h = from_keys s.keys refl
  where
    from_keys : (x : Option Keys) → s.keys ≡ x → IsServed s kid key now (bound_of c after)
    from_keys none p = absurd (ground arith)
    from_keys (some ks) p = record {
      keys = ks;
      held = p;
      named = ground arith;
      sized = ground arith;
      young = ground arith;
    }

-- A key of the client that the call's refresh, and what others did after it, left.
pub record IsServedLater (c : Settings) (s : Client) (kid key : Str) (at_attempt at_last : ℕ)
    (m : Meanwhile) : Type 0 where
  pub refreshed : Client
  pub after_refresh : refresh c (run c s m.before_attempt) at_attempt m ≡ some refreshed
  pub served :
      IsServed (run c refreshed m.before_lookup) kid key at_last (c.cache_ttl + c.outage_grace)

-- Whatever other callers do between its sections, a key that ResolveKey gives has 32 bytes and is, under its
-- kid, one of the keys the client then holds: at the lookup before any refresh, fetched less than CacheTTL
-- ago; or at the lookup after its own refresh was made, was too soon, or another's was waited for, fetched
-- less than CacheTTL and OutageGrace ago.
pub resolve_key-IsServed :
    (c : Settings) (s : Client) (kid key : Str) (at_first at_attempt at_last : ℕ) (m : Meanwhile)
    → resolve_key c s kid at_first at_attempt at_last m ≡ some (resolved key)
    → IsServed s kid key at_first c.cache_ttl ⊎ IsServedLater c s kid key at_attempt at_last m
unfolding resolve_key resolve_missed
resolve_key-IsServed c s kid key at_first at_attempt at_last m h =
    first (cached c s kid at_first false) refl
  where
    third :
        (r : Client) (x : Option Str)
        → cached c (run c r m.before_lookup) kid at_last true ≡ x
        → resolve_missed c (run c r m.before_lookup) m.before_error x ≡ resolved key
        → IsServed (run c r m.before_lookup) kid key at_last (c.cache_ttl + c.outage_grace)
    third r none p g = absurd (ground arith)
    third r (some k) p g =
        cached-IsServed c (run c r m.before_lookup) kid key at_last true (ground arith)

    second :
        (x : Option Client)
        → refresh c (run c s m.before_attempt) at_attempt m ≡ x
        → resolve_after c x kid at_last m ≡ some (resolved key)
        → IsServedLater c s kid key at_attempt at_last m
    second none p g = absurd (ground arith)
    second (some r) p g = record {
      refreshed = r;
      after_refresh = p;
      served = third r (cached c (run c r m.before_lookup) kid at_last true) refl (ground arith);
    }

    first :
        (x : Option Str)
        → cached c s kid at_first false ≡ x
        → IsServed s kid key at_first c.cache_ttl ⊎ IsServedLater c s kid key at_attempt at_last m
    first none p =
        inr (second (refresh c (run c s m.before_attempt) at_attempt m) refl (ground arith))
    first (some k) p = inl (cached-IsServed c s kid key at_first false (ground arith))
