-- ===== src/Pep/Cache/Size.antt =====
-- The size bound of the cache (pep/cache.go): entries, tombstones included, and `Len`.
use dev_health_go.Base.{
  ℕ, suc, zero, ◌+◌, ◌≤◌, ◌≡◌, refl, List, [], ◌∷◌, not, ◌&&◌, arith, some, inl, inr, Option-cases,
  All-pointwise, ltb, ◌==◌, ◌-◌, if◌then◌else◌, if_cases, length,
}
use dev_health_go.Pep.Decision.{Decision, is_local_deny}
use dev_health_go.Pep.Cache.{
  Entry, Cache, find, kill, get, get_found, fresh, evict, evict_back, bound_from, bound, bury,
  entomb, is_late, offer, place, store, raise_watermark, record_verdict, observe, invalidate_all,
  close, new_cached_client, default_cache_entries, len,
}
use dev_health_go.Pep.Cache.Entries.{
  length-front, length-put, length-remove, length-sweep, live_count,
}
use dev_health_go.Pep.Cache.Run.{
  Call, gets, observes, invalidates, closes, step, run, run-Inv, new-Inv, Vouches, Anything,
  anything,
}
use dev_health_go.Pep.Cache.Settings.{run-Follows}

abbrev pub Fits : Cache → Type 0
Fits c = length c.lru ≤ c.max_entries

evict_back-size :
    (c : Cache) (l : List Entry)
    → c.lru ≡ l
    → (length (evict_back c l).lru ≡ length l - 1) × ((evict_back c l).max_entries ≡ c.max_entries)
unfolding evict_back evict
evict_back-size c [] h = rw h (omega arith)
evict_back-size c (e ∷ l) h = (omega (arith, length-front e l), refl)

bound_from-Fits : (n : ℕ) (c : Cache) → length c.lru ≤ n + c.max_entries → Fits (bound_from n c)
unfolding bound_from
bound_from-Fits zero c h = omega arith
bound_from-Fits (suc n) c h =
    if_cases Fits (ltb c.max_entries (length c.lru))
      (λ over.
        bound_from-Fits n (evict_back c c.lru) (ground (arith, evict_back-size c c.lru refl)))
      (λ under. ground arith)

bound-Fits : (c : Cache) → Fits (bound c)
unfolding bound
bound-Fits c = bound_from-Fits (length c.lru) c (omega arith)

raise-Fits : (c : Cache) (rev : ℕ) → Fits c → Fits (raise_watermark c rev)
unfolding raise_watermark
raise-Fits c rev h = ground (arith, length-sweep rev c.lru)

observe-Fits :
    (c : Cache) (key : ℕ) (d : Decision) (stamp asked now : ℕ)
    → Fits c
    → Fits (observe c key d stamp asked now)
unfolding observe record_verdict entomb store
observe-Fits c key d stamp asked now h =
    let up = raise_watermark c d.policy_revision in
    let risen : Fits up = raise-Fits c d.policy_revision h in
    if_cases Fits (is_local_deny d) (λ _. h)
      λ _.
        if_cases Fits c.closed (λ _. h)
          λ _.
            if_cases Fits (not (d.allowed && d.cacheable)) (λ _. bound-Fits (bury up key))
              λ _.
                if_cases Fits (is_late up key stamp) (λ _. risen)
                  λ _.
                    if_cases Fits (not (fresh up (offer up key d asked) now)) (λ _. risen)
                      λ _. bound-Fits (place up (offer up key d asked))

get-Fits : (c : Cache) (key now : ℕ) → Fits c → Fits (get c key now).0
unfolding get
get-Fits c key now h = elim (Option-cases (find key c.lru)) [
  | inl missed ↦ rw (missed, get) h
  | inr (e, found) ↦
      rw (found, get)
        (unfold get_found in
          (ground (arith, length-put (kill e) c.lru, length-remove key c.lru e found)))
]

step-Fits : (c : Cache) (x : Call) → Fits c → Fits (step c x)
unfolding step
step-Fits c (gets key now) h = get-Fits c key now h
step-Fits c (observes key d stamp asked now) h = observe-Fits c key d stamp asked now h
step-Fits c invalidates h = unfold invalidate_all in ground arith
step-Fits c closes h = unfold close in omega arith

run-Fits : (c : Cache) (xs : List Call) → Fits c → Fits (run c xs)
unfolding run
run-Fits c [] h = h
run-Fits c (x ∷ xs) h = run-Fits (step c x) xs (step-Fits c x h)

live_count-le-length : (l : List Entry) → live_count l ≤ length l
live_count-le-length [] = omega arith
live_count-le-length (e ∷ l) = ground (arith, live_count-le-length l)

-- After any history of a new cache the entries, tombstones included, number at most the configured
-- bound (10000 where the configuration says 0), and Len is the number of live entries among them.
pub run-size :
    (entries ttl : ℕ) (c : Cache) (xs : List Call)
    → new_cached_client entries ttl ≡ some c
    → (length (run c xs).lru ≤ (if entries == 0 then default_cache_entries else entries))
      × (len (run c xs) ≡ live_count (run c xs).lru)
      × (len (run c xs) ≤ length (run c xs).lru)
unfolding len
run-size entries ttl c xs made =
    let v =
      run-Inv Anything c xs (All-pointwise (Vouches Anything) anything xs)
        (new-Inv Anything entries ttl c made) in
    let f = run-Follows c xs in
    let start = made_size in
    (
      omega (arith, run-Fits c xs (omega (arith, start)), f.bound_kept, start),
      v.counted,
      omega (arith, v.counted, live_count-le-length (run c xs).lru),
    )
  where
    made_size :
        (length c.lru ≡ 0)
        × (c.max_entries ≡ (if entries == 0 then default_cache_entries else entries))
    made_size = unfold new_cached_client in ground arith
