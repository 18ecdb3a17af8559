-- ===== src/Pep/Cache/Order.antt =====
-- The order of answers in the cache: what a deny or a flush rules out, and the size bound (pep/cache.go).
use dev_health_go.Base.{
  ℕ, ◌+◌, ◌^◌, ◌≤◌, ◌<◌, ◌≡◌, refl, List, [], ◌∷◌, ◌++◌, Bool, true, false, ◌&&◌, ◌||◌,
  All-pointwise, arith, some, inl, inr, Bool-cases, if◌then◌else◌, if_cases, length, subst, sym, ap,
  ◌∙◌,
}
use dev_health_go.Pep.Decision.{Decision, is_local_deny}
use dev_health_go.Pep.Cache.{
  Cache, is_late, entomb, bury, raise_watermark, record_verdict, observe, invalidate_all,
  new_cached_client,
}
use dev_health_go.Pep.Cache.Guards.{Keeps-is_guarded}
use dev_health_go.Pep.Cache.Invariant.{Inv, buried_key, raise_watermark-Inv}
use dev_health_go.Pep.Cache.Run.{
  Call, observes, invalidates, step, run, run-Inv, new-Inv, Vouches, Anything, anything,
}
use dev_health_go.Pep.Cache.Seq.{seq-raise, seq-entomb, seq-step, seq-run}
use dev_health_go.Pep.Cache.Late.{Blocks, bound-Blocks, raise-Blocks, step-Blocks}

run-Blocks :
    (k g : ℕ) (c : Cache) (xs : List Call)
    → g ≤ c.seq
    → c.seq + length xs < 2 ^ 64
    → Blocks k g c
    → Blocks k g (run c xs)
unfolding run
run-Blocks k g c [] le room b = b
run-Blocks k g c (x ∷ xs) le room b =
    let one = seq-step c x (omega arith) in
    run-Blocks k g (step c x) xs (omega (arith, one)) (omega (arith, one))
      (step-Blocks k g c x le (omega arith) b)

-- What an answer does that is used for the watermark alone.
unfoldable pub watermark_only : Cache → Decision → Cache
watermark_only c d = if is_local_deny d || c.closed then c else raise_watermark c d.policy_revision

closed-raise : (c : Cache) (rev : ℕ) → (raise_watermark c rev).closed ≡ c.closed
unfolding raise_watermark
closed-raise c rev = ground arith

Blocks-is_late :
    (k g stamp : ℕ) (c : Cache)
    → Inv Anything c
    → stamp < g
    → c.closed ≡ false
    → Blocks k g c
    → is_late c k stamp ≡ true
unfolding is_late
Blocks-is_late k g stamp c v lt o (inl b) = ground arith
Blocks-is_late k g stamp c v lt o (inr (inl b)) = ground arith
Blocks-is_late k g stamp c v lt o (inr (inr (inl b))) = absurd (ground arith)
Blocks-is_late k g stamp c v lt o (inr (inr (inr b))) =
    ground (arith, Keeps-is_guarded k g stamp c.lru v.distinct b lt)

Blocks-observe :
    (k g : ℕ) (c : Cache) (d : Decision) (stamp asked now : ℕ)
    → Inv Anything c
    → stamp < g
    → d.allowed ≡ true
    → d.cacheable ≡ true
    → Blocks k g c
    → observe c k d stamp asked now ≡ watermark_only c d
unfolding observe watermark_only record_verdict
Blocks-observe k g c d stamp asked now v lt a q b = elim (Bool-cases c.closed) [
  | inl shut ↦ ground arith
  | inr open_now ↦ ground (
    arith,
    Blocks-is_late k g stamp (raise_watermark c d.policy_revision)
        (raise_watermark-Inv Anything c d.policy_revision v) lt
        (closed-raise c d.policy_revision ∙ open_now) (raise-Blocks k g c d.policy_revision b),
  )
]

observe_deny :
    (k : ℕ) (c : Cache) (d : Decision) (stamp asked now : ℕ)
    → c.closed ≡ false
    → is_local_deny d ≡ false
    → (d.allowed && d.cacheable) ≡ false
    → observe c k d stamp asked now ≡ entomb (raise_watermark c d.policy_revision) k
unfolding observe record_verdict
observe_deny k c d stamp asked now o l n = ground arith

entomb-Blocks_self : (k : ℕ) (c : Cache) → c.seq + 1 < 2 ^ 64 → Blocks k (c.seq + 1) (entomb c k)
unfolding entomb
entomb-Blocks_self k c room =
    bound-Blocks k (c.seq + 1) (bury c k)
      (unfold bury in inr (inr (inr (inl (buried_key k c.lru, omega arith)))))

-- A verdict that is no cacheable allow blocks every answer with a stamp taken before it.
observe_deny-Blocks :
    (k : ℕ) (c : Cache) (d : Decision) (stamp asked now : ℕ)
    → c.closed ≡ false
    → c.seq + 1 < 2 ^ 64
    → is_local_deny d ≡ false
    → (d.allowed && d.cacheable) ≡ false
    → Blocks k (c.seq + 1) (observe c k d stamp asked now)
      × ((observe c k d stamp asked now).seq ≡ c.seq + 1)
observe_deny-Blocks k c d stamp asked now o room l n =
    rw (observe_deny k c d stamp asked now o l n) (
      subst (λ g. Blocks k g (entomb up k)) (ap (λ s. s + 1) same)
          (entomb-Blocks_self k up (omega (arith, same))),
      omega (arith, seq-entomb up k, same),
    )
  where
    up : Cache
    up = raise_watermark c d.policy_revision

    same : up.seq ≡ c.seq
    same = seq-raise c d.policy_revision

invalidate_all-Blocks_self :
    (k : ℕ) (c : Cache)
    → c.closed ≡ false
    → c.seq + 1 < 2 ^ 64
    → Blocks k (c.seq + 1) (invalidate_all c).0 × ((invalidate_all c).0.seq ≡ c.seq + 1)
unfolding invalidate_all
invalidate_all-Blocks_self k c o room =
    if_cases (λ (r : Cache × Bool). Blocks k (c.seq + 1) r.0 × (r.0.seq ≡ c.seq + 1)) c.closed
      (λ shut. absurd (ground arith)) (λ _. (inr (inl (omega arith)), omega arith))

run-Inv_new :
    (entries ttl : ℕ) (c : Cache) (xs : List Call)
    → new_cached_client entries ttl ≡ some c
    → Inv Anything (run c xs)
run-Inv_new entries ttl c xs made =
    run-Inv Anything c xs (All-pointwise (Vouches Anything) anything xs)
      (new-Inv Anything entries ttl c made)

run-append : (c : Cache) (xs ys : List Call) → run c (xs ++ ys) ≡ run (run c xs) ys
unfolding run
run-append c [] ys = refl
run-append c (x ∷ xs) ys = run-append (step c x) xs ys

seq-new : (entries ttl : ℕ) (c : Cache) → new_cached_client entries ttl ≡ some c → c.seq ≡ 0
unfolding new_cached_client
seq-new entries ttl c made = ground arith

-- In any history of fewer than 2^64 calls: once an open cache records a PDP verdict for a key that is
-- not a cacheable allow, an allow for that key whose call took its stamp no later is never stored,
-- whatever calls come between; recording it changes the cache by the watermark alone.
pub deny_outlasts_older_allow :
    (entries ttl : ℕ) (c : Cache) (before after : List Call) (k : ℕ) (deny : Decision)
    (stamp asked now : ℕ) (allow : Decision) (stamp' asked' now' : ℕ)
    → new_cached_client entries ttl ≡ some c
    → length before + length after + 1 < 2 ^ 64
    → (run c before).closed ≡ false
    → is_local_deny deny ≡ false
    → (deny.allowed && deny.cacheable) ≡ false
    → allow.allowed ≡ true
    → allow.cacheable ≡ true
    → stamp' ≤ (run c before).seq
    → let c' = run c (before ++ observes k deny stamp asked now ∷ after) in
      observe c' k allow stamp' asked' now' ≡ watermark_only c' allow
deny_outlasts_older_allow entries ttl c before after k deny stamp asked now allow stamp' asked' now'
      made room o l n a q late =
    let start = seq-new entries ttl c made in
    let early = seq-run c before (omega arith) in
    let blocked =
      observe_deny-Blocks k (run c before) deny stamp asked now o (omega (arith, early)) l n in
    Blocks-observe k ((run c before).seq + 1) _ allow stamp' asked' now'
      (run-Inv_new entries ttl c (before ++ observes k deny stamp asked now ∷ after) made)
      (omega arith) a q
      (subst (Blocks k ((run c before).seq + 1))
        (sym (run-append c before (observes k deny stamp asked now ∷ after)))
        (unfold run step in
          run-Blocks k ((run c before).seq + 1) (observe (run c before) k deny stamp asked now)
            after (omega (arith, blocked)) (omega (arith, blocked, early)) blocked.0))

-- In any history of fewer than 2^64 calls: once an open cache is invalidated, an allow of any key
-- whose call took its stamp no later is never stored, whatever calls come between; recording it
-- changes the cache by the watermark alone.
pub flush_outlasts_older_allow :
    (entries ttl : ℕ) (c : Cache) (before after : List Call) (k : ℕ) (allow : Decision)
    (stamp asked now : ℕ)
    → new_cached_client entries ttl ≡ some c
    → length before + length after + 1 < 2 ^ 64
    → (run c before).closed ≡ false
    → allow.allowed ≡ true
    → allow.cacheable ≡ true
    → stamp ≤ (run c before).seq
    → let c' = run c (before ++ invalidates ∷ after) in
      observe c' k allow stamp asked now ≡ watermark_only c' allow
flush_outlasts_older_allow entries ttl c before after k allow stamp asked now made room o a q late =
    let start = seq-new entries ttl c made in
    let early = seq-run c before (omega arith) in
    let flushed = invalidate_all-Blocks_self k (run c before) o (omega (arith, early)) in
    Blocks-observe k ((run c before).seq + 1) _ allow stamp asked now
      (run-Inv_new entries ttl c (before ++ invalidates ∷ after) made) (omega arith) a q
      (subst (Blocks k ((run c before).seq + 1)) (sym (run-append c before (invalidates ∷ after))) (
        unfold run step in
        run-Blocks k ((run c before).seq + 1) (invalidate_all (run c before)).0 after
          (omega (arith, flushed)) (omega (arith, flushed, early)) flushed.0))
