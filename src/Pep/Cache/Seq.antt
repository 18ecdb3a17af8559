-- ===== src/Pep/Cache/Seq.antt =====
-- The sequence number of the cache only grows, by at most one a call (pep/cache.go).
use dev_health_go.Base.{
  ℕ, suc, zero, ◌+◌, ◌^◌, ◌≤◌, ◌<◌, ◌≡◌, refl, List, [], ◌∷◌, not, ◌&&◌, arith, ltb, if_cases,
  length,
}
use dev_health_go.Pep.Decision.{Decision, is_local_deny}
use dev_health_go.Pep.Cache.{
  Entry, Cache, get, get_found, fresh, evict, evict_back, bound_from, bound, bury, entomb, is_late,
  offer, place, store, raise_watermark, record_verdict, observe, invalidate_all, close, u64,
}
use dev_health_go.Pep.Cache.Run.{Call, gets, observes, invalidates, closes, step, run}

seq-evict_back : (c : Cache) (l : List Entry) → (evict_back c l).seq ≡ c.seq
unfolding evict_back evict
seq-evict_back c [] = refl
seq-evict_back c (e ∷ l) = refl

seq-bound_from : (n : ℕ) (c : Cache) → (bound_from n c).seq ≡ c.seq
unfolding bound_from
seq-bound_from zero c = refl
seq-bound_from (suc n) c =
    if_cases (λ (r : Cache). r.seq ≡ c.seq) (ltb c.max_entries (length c.lru))
      (λ _. omega (arith, seq-bound_from n (evict_back c c.lru), seq-evict_back c c.lru))
      (λ _. refl)

seq-bound : (c : Cache) → (bound c).seq ≡ c.seq
unfolding bound
seq-bound c = seq-bound_from (length c.lru) c

pub seq-raise : (c : Cache) (rev : ℕ) → (raise_watermark c rev).seq ≡ c.seq
unfolding raise_watermark
seq-raise c rev = ground arith

pub seq-entomb : (c : Cache) (key : ℕ) → (entomb c key).seq ≡ u64 (c.seq + 1)
unfolding entomb
seq-entomb c key = unfold bury in seq-bound (bury c key)

seq-store :
    (c : Cache) (key : ℕ) (d : Decision) (asked now : ℕ) → (store c key d asked now).seq ≡ c.seq
unfolding store
seq-store c key d asked now =
    if_cases (λ (r : Cache). r.seq ≡ c.seq) (not (fresh c (offer c key d asked) now)) (λ _. refl)
      λ _. unfold place in seq-bound (place c (offer c key d asked))

-- From `c` to `r` the number stays or goes up by one.
abbrev pub Advances : Cache → Cache → Type 0
Advances c r = (c.seq ≤ r.seq) × (r.seq ≤ c.seq + 1)

seq-observe :
    (c : Cache) (key : ℕ) (d : Decision) (stamp asked now : ℕ)
    → c.seq + 1 < 2 ^ 64
    → Advances c (observe c key d stamp asked now)
unfolding observe record_verdict
seq-observe c key d stamp asked now room =
    if_cases (Advances c) (is_local_deny d) (λ _. (omega arith, omega arith))
      λ _.
        if_cases (Advances c) c.closed (λ _. (omega arith, omega arith))
          λ _.
            if_cases (Advances c) (not (d.allowed && d.cacheable))
              (λ _.
                (omega (arith, seq-entomb up key, same), omega (arith, seq-entomb up key, same)))
              λ _.
                if_cases (Advances c) (is_late up key stamp)
                  (λ _. (omega (arith, same), omega (arith, same)))
                  λ _. (
                    omega (arith, seq-store up key d asked now, same),
                    omega (arith, seq-store up key d asked now, same),
                  )
  where
    up : Cache
    up = raise_watermark c d.policy_revision

    same : up.seq ≡ c.seq
    same = seq-raise c d.policy_revision

seq-get : (c : Cache) (key now : ℕ) → (get c key now).0.seq ≡ c.seq
unfolding get get_found
seq-get c key now = ground arith

pub seq-step : (c : Cache) (x : Call) → c.seq + 1 < 2 ^ 64 → Advances c (step c x)
unfolding step
seq-step c (gets key now) room =
    (omega (arith, seq-get c key now), omega (arith, seq-get c key now))
seq-step c (observes key d stamp asked now) room = seq-observe c key d stamp asked now room
seq-step c invalidates room = unfold invalidate_all in ground arith
seq-step c closes room = unfold close in (omega arith, omega arith)

-- Short of 2^64 calls the number never wraps.
pub seq-run :
    (c : Cache) (xs : List Call)
    → c.seq + length xs < 2 ^ 64
    → (c.seq ≤ (run c xs).seq) × ((run c xs).seq ≤ c.seq + length xs)
unfolding run
seq-run c [] room = (omega arith, omega arith)
seq-run c (x ∷ xs) room =
    let one = seq-step c x (omega arith) in
    let rest = seq-run (step c x) xs (omega arith) in (omega arith, omega arith)
