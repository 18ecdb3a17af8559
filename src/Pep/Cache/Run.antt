-- ===== src/Pep/Cache/Run.antt =====
-- Histories of the cache (pep/cache.go): the calls that take the mutex, in the order they take it.
use dev_health_go.Base.{
  ℕ, ◌+◌, ◌≤◌, ◌<◌, ◌≡◌, refl, List, [], ◌∷◌, true, false, All, arith, some, inl, inr, Option-cases,
  subst, All-imp,
}
use mathlib.Core.List.{Memᴰ}
use dev_health_go.Pep.Decision.{Decision}
use dev_health_go.Pep.Cache.{
  Entry, Cache, find, fresh, get, get_found, observe, invalidate_all, close, new_cached_client,
}
use dev_health_go.Pep.Cache.Entries.{find-All, find_key}
use dev_health_go.Pep.Cache.Invariant.{
  IsServable, Inv, observe-Inv, get-Inv, invalidate_all-Inv, close-Inv,
}

-- A critical section: a lookup at a clock reading; an answer with the stamp and the time that its
-- call took before it, recorded at a clock reading; a flush; the end.
pub data Call : Type 0 where
  gets : ℕ → ℕ → Call
  observes : ℕ → Decision → ℕ → ℕ → ℕ → Call
  invalidates closes : Call

unfoldable pub step : Cache → Call → Cache
step c (gets key now) = (get c key now).0
step c (observes key d stamp asked now) = observe c key d stamp asked now
step c invalidates = (invalidate_all c).0
step c closes = close c

unfoldable pub run : Cache → List Call → Cache
run c [] = c
run c (x ∷ xs) = run (step c x) xs

module _ (P : ℕ → Decision → ℕ → Type 0) where
  -- `P` holds of every answer that the history records.
  abbrev pub Vouches : Call → Type 0
  Vouches (observes key d stamp asked now) = P key d asked
  Vouches _ = Unit {0}

  pub step-Inv : (c : Cache) (x : Call) → Vouches x → Inv P c → Inv P (step c x)
  unfolding step
  step-Inv c (gets key now) p v = get-Inv P c key now v
  step-Inv c (observes key d stamp asked now) p v = observe-Inv P c key d stamp asked now p v
  step-Inv c invalidates p v = invalidate_all-Inv P c v
  step-Inv c closes p v = close-Inv P c

  pub run-Inv : (c : Cache) (xs : List Call) → All Vouches xs → Inv P c → Inv P (run c xs)
  unfolding run
  run-Inv c [] p v = v
  run-Inv c (x ∷ xs) (p, ps) v = run-Inv (step c x) xs ps (step-Inv c x p v)

  pub new-Inv : (entries ttl : ℕ) (c : Cache) → new_cached_client entries ttl ≡ some c → Inv P c
  unfolding new_cached_client
  new-Inv entries ttl c h =
      let (l, a, k) = empty in
      record { distinct = rw l tt; counted = rw l a; servable = rw l tt; emptied = λ _. l }
    where
      empty : (c.lru ≡ []) × (c.allows ≡ 0) × (c.closed ≡ false)
      empty = ground arith

-- The predicate that asks nothing of an answer, which every history meets.
abbrev pub Anything : ℕ → Decision → ℕ → Type 0
Anything key d asked = Unit {0}

pub anything : (x : Call) → Vouches Anything x
anything (gets key now) = tt
anything (observes key d stamp asked now) = tt
anything invalidates = tt
anything closes = tt

-- What a lookup at `now` serves for a key.
pub record IsGoodHit (P : ℕ → Decision → ℕ → Type 0) (c : Cache) (key now : ℕ) (d : Decision)
    : Type 0 where
  pub asked : ℕ
  pub vouched : P key d asked
  pub allow : d.allowed ≡ true
  pub cacheable : d.cacheable ≡ true
  pub not_before : asked ≤ now
  pub within_ttl : now < asked + c.max_ttl
  pub unexpired : now < d.expires_at
  pub current : c.watermark ≤ d.policy_revision
  pub still_open : c.closed ≡ false

module _ (P : ℕ → Decision → ℕ → Type 0) where
  pub get-IsGoodHit :
      (c : Cache) (key now : ℕ) (d : Decision)
      → Inv P c
      → (get c key now).1 ≡ some d
      → IsGoodHit P c key now d
  unfolding get get_found fresh
  get-IsGoodHit c key now d v h = elim (Option-cases (find key c.lru)) [
    | inl missed ↦ absurd (ground arith)
    | inr (e, found) ↦
        hit e found (find-All (IsServable P c.watermark) key c.lru e found v.servable)
  ]
    where
      hit :
          (e : Entry)
          → find key c.lru ≡ some e
          → IsServable P c.watermark e
          → IsGoodHit P c key now d
      hit e found s =
          let alive : e.live ≡ true = ground arith in
          let same : e.decision ≡ d = ground arith in
          record {
            asked = e.asked;
            vouched =
                subst (λ x. P key x e.asked) same
                  (subst (λ k. P k e.decision e.asked) (find_key key c.lru e found)
                    (s.vouched alive));
            allow = ground (arith, s.allow alive);
            cacheable = ground (arith, s.cacheable alive);
            not_before = ground arith;
            within_ttl = ground arith;
            unexpired = ground arith;
            current = ground arith;
            still_open = ground arith;
          }

-- The history records this answer, for this key, of a call that was asked at this time.
abbrev pub Answered : List Call → ℕ → Decision → ℕ → Type 0
Answered xs key d asked = (stamp : ℕ) × (now : ℕ) × Memᴰ (observes key d stamp asked now) xs

pub Vouches-mono :
    (P Q : ℕ → Decision → ℕ → Type 0)
    → ((key : ℕ) (d : Decision) (asked : ℕ) → P key d asked → Q key d asked)
    → (xs : List Call) → All (Vouches P) xs
    → All (Vouches Q) xs
Vouches-mono P Q f xs = All-imp one xs
  where
    one : (x : Call) → Vouches P x → Vouches Q x
    one (observes key d stamp asked now) p = f key d asked p
    one (gets key now) p = tt
    one invalidates p = tt
    one closes p = tt

pub Vouches-Answered : (xs : List Call) → All (Vouches (Answered xs)) xs
Vouches-Answered [] = tt
Vouches-Answered (x ∷ xs) =
    (head x, Vouches-mono (Answered xs) (Answered (x ∷ xs)) later xs (Vouches-Answered xs))
  where
    head : (y : Call) → Vouches (Answered (y ∷ xs)) y
    head (observes key d stamp asked now) = (stamp, now, Memᴰ.head refl)
    head (gets key now) = tt
    head invalidates = tt
    head closes = tt

    later :
        (key : ℕ) (d : Decision) (asked : ℕ)
        → Answered xs key d asked
        → Answered (x ∷ xs) key d asked
    later key d asked (stamp, now, m) = (stamp, now, Memᴰ.tail m)

-- After any history of a new cache, a lookup that serves a decision serves an allow that the history
-- recorded for this very key; it is cacheable, was asked less than MaxTTL ago and not in the future,
-- has not expired, is not below the watermark, and the cache is not closed.
pub run-get-IsGoodHit :
    (entries ttl : ℕ) (c : Cache) (xs : List Call) (key now : ℕ) (d : Decision)
    → new_cached_client entries ttl ≡ some c
    → (get (run c xs) key now).1 ≡ some d
    → IsGoodHit (Answered xs) (run c xs) key now d
run-get-IsGoodHit entries ttl c xs key now d made h =
    get-IsGoodHit (Answered xs) (run c xs) key now d
      (run-Inv (Answered xs) c xs (Vouches-Answered xs) (new-Inv (Answered xs) entries ttl c made))
      h
