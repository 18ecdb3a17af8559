-- ===== src/Pep/Cache/Late.antt =====
-- An answer to a call that began before a deny of its key or a flush is not stored (pep/cache.go).
use dev_health_go.Base.{
  ℕ, suc, zero, ◌+◌, ◌^◌, ◌≤◌, ◌<◌, ◌≡◌, ◌≢◌, refl, List, [], ◌∷◌, Bool, true, not, ◌&&◌, ◌==◌, All,
  arith, Option, none, some, ◌⊎◌, inl, inr, Bool-cases, Option-cases, ltb, if_cases, length, subst,
  sym, ◌∙◌,
}
use dev_health_go.Pep.Decision.{Decision, is_local_deny}
use dev_health_go.Pep.Cache.{
  Entry, Cache, find, remove, put, kill, sweep, swept, is_late, get, get_found, fresh, evict,
  evict_back, bound_from, bound, bury, entomb, offer, place, store, raise_watermark, record_verdict,
  observe, invalidate_all, close, without,
}
use dev_health_go.Pep.Cache.Entries.{Differs, Differs-of_none, find_key}
use dev_health_go.Pep.Cache.Guards.{
  Keeps, Keeps-not_Differs, remove-Keeps, touch-Keeps, put-Keeps, sweep-Keeps, front-Keeps,
}
use dev_health_go.Pep.Cache.Invariant.{buried_key}
use dev_health_go.Pep.Cache.Seq.{seq-raise}
use dev_health_go.Pep.Cache.Run.{Call, gets, observes, invalidates, closes, step}

-- Every answer for the key with a stamp below `g` is late: by the floor, by the last flush, by the
-- guard of the key's own entry, or because the cache is closed.
abbrev pub Blocks : ℕ → ℕ → Cache → Type 0
Blocks k g c = (g ≤ c.floor) ⊎ (g ≤ c.last_flush) ⊎ (c.closed ≡ true) ⊎ Keeps k g c.lru

evict-Blocks :
    (k g : ℕ) (c : Cache) (l : List Entry) → c.lru ≡ l → Blocks k g c → Blocks k g (evict_back c l)
unfolding evict_back evict
evict-Blocks k g c [] q b = b
evict-Blocks k g c (e ∷ l) q (inl b) = inl (ground arith)
evict-Blocks k g c (e ∷ l) q (inr (inl b)) = inr (inl b)
evict-Blocks k g c (e ∷ l) q (inr (inr (inl b))) = inr (inr (inl b))
evict-Blocks k g c (e ∷ l) q (inr (inr (inr b))) =
    elim (front-Keeps k g e l (subst (Keeps k g) q b)) [
      | inl stays ↦ inr (inr (inr stays))
      | inr goes ↦ inl (ground arith)
    ]

bound_from-Blocks : (n k g : ℕ) (c : Cache) → Blocks k g c → Blocks k g (bound_from n c)
unfolding bound_from
bound_from-Blocks zero k g c b = b
bound_from-Blocks (suc n) k g c b =
    if_cases (Blocks k g) (ltb c.max_entries (length c.lru))
      (λ _. bound_from-Blocks n k g (evict_back c c.lru) (evict-Blocks k g c c.lru refl b)) (λ _. b)

pub bound-Blocks : (k g : ℕ) (c : Cache) → Blocks k g c → Blocks k g (bound c)
unfolding bound
bound-Blocks k g c = bound_from-Blocks (length c.lru) k g c

-- A change of the list alone keeps a block, if it keeps the guards.
relist :
    (k g : ℕ) (c c' : Cache)
    → c'.floor ≡ c.floor
    → c'.last_flush ≡ c.last_flush
    → c'.closed ≡ c.closed
    → (Keeps k g c.lru → Keeps k g c'.lru)
    → Blocks k g c
    → Blocks k g c'
relist k g c c' f l o keep (inl b) = inl (omega arith)
relist k g c c' f l o keep (inr (inl b)) = inr (inl (omega arith))
relist k g c c' f l o keep (inr (inr (inl b))) = inr (inr (inl (o ∙ b)))
relist k g c c' f l o keep (inr (inr (inr b))) = inr (inr (inr (keep b)))

pub raise-Blocks :
    (k g : ℕ) (c : Cache) (rev : ℕ) → Blocks k g c → Blocks k g (raise_watermark c rev)
unfolding raise_watermark
raise-Blocks k g c rev b =
    if_cases (Blocks k g) (ltb c.watermark rev)
      (λ _.
        relist k g c
          (record c { watermark = rev; lru = sweep rev c.lru; allows = swept rev c.lru c.allows })
          refl refl refl (sweep-Keeps k g rev c.lru) b)
      (λ _. b)

-- With the sequence number at `g` or above and room to grow, a tombstone's guard is at least `g`.
bury-Keeps :
    (k g j : ℕ) (c : Cache)
    → g ≤ c.seq
    → c.seq + 1 < 2 ^ 64
    → Keeps k g c.lru
    → Keeps k g (bury c j).lru
unfolding bury
bury-Keeps k g j c le room h = elim (Bool-cases (j == k)) [
  | inl same ↦ let q : j ≡ k = ground arith in inl (buried_key j c.lru ∙ q, omega arith)
  | inr other ↦ let n : j ≢ k = ground arith in inr (remove-Keeps k g j c.lru n h)
]

place-Keeps :
    (k g : ℕ) (c : Cache) (j : ℕ) (d : Decision) (asked : ℕ)
    → Keeps k g c.lru
    → Keeps k g (place c (offer c j d asked)).lru
unfolding place offer
place-Keeps k g c j d asked h = elim (Option-cases (find j c.lru)) [
  | inl missed ↦ inr (remove-Keeps k g j c.lru (absent missed) h)
  | inr (e, found) ↦
      touch-Keeps k g j c.lru e (offer c j d asked) found (sym (find_key j c.lru e found))
        (rw found refl) h
]
  where
    absent : find j c.lru ≡ none → j ≢ k
    absent missed q =
        Keeps-not_Differs k g c.lru
          (subst (λ i. All (Differs i) c.lru) q (Differs-of_none j c.lru missed)) h

entomb-Blocks :
    (k g j : ℕ) (c : Cache)
    → g ≤ c.seq
    → c.seq + 1 < 2 ^ 64
    → Blocks k g c
    → Blocks k g (entomb c j)
unfolding entomb
entomb-Blocks k g j c le room b =
    bound-Blocks k g (bury c j)
      (unfold bury in relist k g c (bury c j) refl refl refl (bury-Keeps k g j c le room) b)

store-Blocks :
    (k g : ℕ) (c : Cache) (j : ℕ) (d : Decision) (asked now : ℕ)
    → Blocks k g c
    → Blocks k g (store c j d asked now)
unfolding store
store-Blocks k g c j d asked now b =
    if_cases (Blocks k g) (not (fresh c (offer c j d asked) now)) (λ _. b)
      λ _. bound-Blocks k g (place c (offer c j d asked)) (
        unfold place in
        relist k g c (place c (offer c j d asked)) refl refl refl (place-Keeps k g c j d asked) b)

observe-Blocks :
    (k g : ℕ) (c : Cache) (j : ℕ) (d : Decision) (stamp asked now : ℕ)
    → g ≤ c.seq
    → c.seq + 1 < 2 ^ 64
    → Blocks k g c
    → Blocks k g (observe c j d stamp asked now)
unfolding observe record_verdict
observe-Blocks k g c j d stamp asked now le room b =
    if_cases (Blocks k g) (is_local_deny d) (λ _. b)
      λ _.
        if_cases (Blocks k g) c.closed (λ _. b)
          λ _.
            if_cases (Blocks k g) (not (d.allowed && d.cacheable))
              (λ _. entomb-Blocks k g j up (omega (arith, same)) (omega (arith, same)) risen)
              λ _.
                if_cases (Blocks k g) (is_late up j stamp) (λ _. risen)
                  λ _. store-Blocks k g up j d asked now risen
  where
    up : Cache
    up = raise_watermark c d.policy_revision

    same : up.seq ≡ c.seq
    same = seq-raise c d.policy_revision

    risen : Blocks k g up
    risen = raise-Blocks k g c d.policy_revision b

get_found-Blocks :
    (k g : ℕ) (c : Cache) (j now : ℕ) (e : Entry)
    → find j c.lru ≡ some e
    → Blocks k g c
    → Blocks k g (get_found c j now e).0
unfolding get_found
get_found-Blocks k g c j now e found b =
    if_cases Result c.closed (λ _. b)
      λ _.
        if_cases Result (not e.live) (λ _. b)
          λ _.
            if_cases Result (not (fresh c e now))
              (λ _.
                relist k g c (record c { lru = put (kill e) c.lru; allows = without e c.allows })
                  refl refl refl
                  (put-Keeps k g j c.lru e (kill e) found (ground (arith, find_key j c.lru e found))
                    (ground arith))
                  b)
              (λ _.
                relist k g c (record c { lru = e ∷ remove j c.lru }) refl refl refl
                  (touch-Keeps k g j c.lru e e found refl refl) b)
  where
    Result : Cache × Option Decision → Type 0
    Result r = Blocks k g r.0

get-Blocks : (k g : ℕ) (c : Cache) (j now : ℕ) → Blocks k g c → Blocks k g (get c j now).0
unfolding get
get-Blocks k g c j now b = elim (Option-cases (find j c.lru)) [
  | inl missed ↦ rw (missed, get) b
  | inr (e, found) ↦ rw (found, get) (get_found-Blocks k g c j now e found b)
]

invalidate_all-Blocks :
    (k g : ℕ) (c : Cache)
    → g ≤ c.seq
    → c.seq + 1 < 2 ^ 64
    → Blocks k g c
    → Blocks k g (invalidate_all c).0
unfolding invalidate_all
invalidate_all-Blocks k g c le room b =
    if_cases (λ (r : Cache × Bool). Blocks k g r.0) c.closed (λ _. b) λ _. inr (inl (omega arith))

pub step-Blocks :
    (k g : ℕ) (c : Cache) (x : Call)
    → g ≤ c.seq
    → c.seq + 1 < 2 ^ 64
    → Blocks k g c
    → Blocks k g (step c x)
unfolding step
step-Blocks k g c (gets j now) le room b = get-Blocks k g c j now b
step-Blocks k g c (observes j d stamp asked now) le room b =
    observe-Blocks k g c j d stamp asked now le room b
step-Blocks k g c invalidates le room b = invalidate_all-Blocks k g c le room b
step-Blocks k g c closes le room b = unfold close in inr (inr (inl refl))
