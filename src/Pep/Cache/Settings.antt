-- ===== src/Pep/Cache/Settings.antt =====
-- What the cache's calls never change or only raise: its bound, its end, its watermark (pep/cache.go).
use dev_health_go.Base.{
  ℕ, suc, zero, ◌≤◌, ◌≡◌, List, [], ◌∷◌, true, false, not, ◌&&◌, arith, some, inl, inr, Bool-cases,
  ◌∙◌, ltb, if_cases, length, subst,
}
use mathlib.Core.List.{Memᴰ}
use dev_health_go.Pep.Decision.{Decision, is_local_deny}
use dev_health_go.Pep.Cache.{
  Entry, Cache, get, get_found, fresh, evict, evict_back, bound_from, bound, bury, entomb, is_late,
  offer, place, store, raise_watermark, record_verdict, observe, invalidate_all, close,
  new_cached_client,
}
use dev_health_go.Pep.Cache.Run.{
  Call, gets, observes, invalidates, closes, step, run, run-get-IsGoodHit,
}

-- `r` has the bound of `c`, is closed when `c` is, and its watermark is no lower.
pub record Follows (c r : Cache) : Type 0 where
  pub bound_kept : r.max_entries ≡ c.max_entries
  pub end_kept : c.closed ≡ true → r.closed ≡ true
  pub watermark_kept : c.watermark ≤ r.watermark

Follows-refl : (c : Cache) → Follows c c
Follows-refl c = ground arith

Follows-trans : (a b c : Cache) → Follows a b → Follows b c → Follows a c
Follows-trans a b c f g = record {
  bound_kept = g.bound_kept ∙ f.bound_kept;
  end_kept = λ h. g.end_kept (f.end_kept h);
  watermark_kept = omega (arith, f.watermark_kept, g.watermark_kept);
}

evict_back-Follows : (c : Cache) (l : List Entry) → Follows c (evict_back c l)
unfolding evict_back evict
evict_back-Follows c [] = Follows-refl c
evict_back-Follows c (e ∷ l) = ground arith

bound_from-Follows : (n : ℕ) (c : Cache) → Follows c (bound_from n c)
unfolding bound_from
bound_from-Follows zero c = Follows-refl c
bound_from-Follows (suc n) c =
    if_cases (Follows c) (ltb c.max_entries (length c.lru))
      (λ _.
        Follows-trans c (evict_back c c.lru) (bound_from n (evict_back c c.lru))
          (evict_back-Follows c c.lru) (bound_from-Follows n (evict_back c c.lru)))
      (λ _. Follows-refl c)

bound-Follows : (c : Cache) → Follows c (bound c)
unfolding bound
bound-Follows c = bound_from-Follows (length c.lru) c

raise-Follows : (c : Cache) (rev : ℕ) → Follows c (raise_watermark c rev)
unfolding raise_watermark
raise-Follows c rev = ground arith

entomb-Follows : (c : Cache) (key : ℕ) → Follows c (entomb c key)
unfolding entomb
entomb-Follows c key =
    Follows-trans c (bury c key) (bound (bury c key)) (unfold bury in ground arith)
      (bound-Follows (bury c key))

store-Follows :
    (c : Cache) (key : ℕ) (d : Decision) (asked now : ℕ) → Follows c (store c key d asked now)
unfolding store
store-Follows c key d asked now =
    let e = offer c key d asked in
    if_cases (Follows c) (not (fresh c e now)) (λ _. Follows-refl c)
      λ _.
        Follows-trans c (place c e) (bound (place c e)) (unfold place in ground arith)
          (bound-Follows (place c e))

record_verdict-Follows :
    (c : Cache) (key : ℕ) (d : Decision) (stamp asked now : ℕ)
    → Follows c (record_verdict c key d stamp asked now)
unfolding record_verdict
record_verdict-Follows c key d stamp asked now =
    if_cases (Follows c) (not (d.allowed && d.cacheable)) (λ _. entomb-Follows c key)
      λ _.
        if_cases (Follows c) (is_late c key stamp) (λ _. Follows-refl c)
          λ _. store-Follows c key d asked now

observe-Follows :
    (c : Cache) (key : ℕ) (d : Decision) (stamp asked now : ℕ)
    → Follows c (observe c key d stamp asked now)
unfolding observe
observe-Follows c key d stamp asked now =
    let up = raise_watermark c d.policy_revision in
    if_cases (Follows c) (is_local_deny d) (λ _. Follows-refl c)
      λ _.
        if_cases (Follows c) c.closed (λ _. Follows-refl c)
          λ _.
            Follows-trans c up (record_verdict up key d stamp asked now)
              (raise-Follows c d.policy_revision) (record_verdict-Follows up key d stamp asked now)

get-Follows : (c : Cache) (key now : ℕ) → Follows c (get c key now).0
unfolding get get_found
get-Follows c key now = ground arith

step-Follows : (c : Cache) (x : Call) → Follows c (step c x)
unfolding step
step-Follows c (gets key now) = get-Follows c key now
step-Follows c (observes key d stamp asked now) = observe-Follows c key d stamp asked now
step-Follows c invalidates = unfold invalidate_all in ground arith
step-Follows c closes = unfold close in ground arith

pub run-Follows : (c : Cache) (xs : List Call) → Follows c (run c xs)
unfolding run
run-Follows c [] = Follows-refl c
run-Follows c (x ∷ xs) =
    Follows-trans c (step c x) (run (step c x) xs) (step-Follows c x) (run-Follows (step c x) xs)

-- A PDP verdict that an open cache records leaves the watermark no lower than its revision.
observe-watermark :
    (c : Cache) (key : ℕ) (d : Decision) (stamp asked now : ℕ)
    → is_local_deny d ≡ false
    → c.closed ≡ false
    → d.policy_revision ≤ (observe c key d stamp asked now).watermark
unfolding observe
observe-watermark c key d stamp asked now l o =
    let up = raise_watermark c d.policy_revision in
    let high : d.policy_revision ≤ up.watermark = unfold raise_watermark in ground arith in
    let kept = record_verdict-Follows up key d stamp asked now in
    ground (arith, kept.watermark_kept)

-- The watermark is at least the revision of each recorded verdict, or the cache is closed.
run-watermark :
    (c : Cache) (xs : List Call) (key : ℕ) (d : Decision) (stamp asked now : ℕ)
    → is_local_deny d ≡ false
    → Memᴰ (observes key d stamp asked now) xs
    → (run c xs).closed ≡ false
    → d.policy_revision ≤ (run c xs).watermark
unfolding run
run-watermark c [] key d stamp asked now l m o = elim m [ ]
run-watermark c (x ∷ xs) key d stamp asked now l (Memᴰ.tail m) o =
    run-watermark (step c x) xs key d stamp asked now l m o
run-watermark c (x ∷ xs) key d stamp asked now l (Memᴰ.head e) o =
    let f = run-Follows (step c x) xs in
    elim (Bool-cases c.closed) [
      | inl shut ↦ absurd (ground (arith, f.end_kept ((step-Follows c x).end_kept shut)))
      | inr open_now ↦
          let here : d.policy_revision ≤ (step c x).watermark =
            subst (λ y. d.policy_revision ≤ (step c y).watermark) e
              (unfold step in observe-watermark c key d stamp asked now l open_now) in
          omega (arith, here, f.watermark_kept)
    ]

-- After any history of a new cache, a served decision is made under a policy revision at least that
-- of every PDP verdict the history records, for whatever key.
pub run-get_not_below :
    (entries ttl : ℕ) (c : Cache) (xs : List Call) (key now : ℕ) (d : Decision) (key' : ℕ)
    (verdict : Decision) (stamp asked now' : ℕ)
    → new_cached_client entries ttl ≡ some c
    → (get (run c xs) key now).1 ≡ some d
    → is_local_deny verdict ≡ false
    → Memᴰ (observes key' verdict stamp asked now') xs
    → verdict.policy_revision ≤ d.policy_revision
run-get_not_below entries ttl c xs key now d key' verdict stamp asked now' made h l m =
    let hit = run-get-IsGoodHit entries ttl c xs key now d made h in
    omega (arith, hit.current, run-watermark c xs key' verdict stamp asked now' l m hit.still_open)
