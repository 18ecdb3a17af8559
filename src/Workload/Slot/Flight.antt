-- ===== src/Workload/Slot/Flight.antt =====
-- One exchange at a time, and the quiet after a failed one (workloadtoken/client.go, Token).
use dev_health_go.Base.{
  ℕ, suc, ◌+◌, ◌≤◌, ◌<◌, ◌≡◌, refl, sym, ◌≢◌, ◌∙◌, true, false, Option, none, some, ◌⊎◌, inl, inr,
  arith, List, [], ◌∷◌, subst,
}
use dev_health_go.Workload.Slot.{
  Cause, Entry, Slot, Settings, empty_slot, check_token, exchanges, look_kept, look, fail,
  land_checked, land, Readings, invalidate, backoff,
}

-- What the callers of one slot have done: `Reaches c s n` says that the slot can be `s` with `n`
-- exchanges under way. An exchange lands only when one is under way.
pub data Reaches (c : Settings) : Slot → ℕ → Type 0 where
  made : Reaches c empty_slot 0
  looked :
      (s : Slot) (n now : ℕ)
      → Reaches c s n
      → ((look c s now).1 ≡ exchanges → ⊥)
      → Reaches c (look c s now).0 n
  started :
      (s : Slot) (n now : ℕ)
      → Reaches c s n
      → (look c s now).1 ≡ exchanges
      → Reaches c (look c s now).0 (suc n)
  landed :
      (s : Slot) (n : ℕ) (x : Cause ⊎ Entry) (t : Readings)
      → Reaches c s (suc n)
      → Reaches c (land c s x t).0 n
  dropped : (s : Slot) (n : ℕ) → Reaches c s n → Reaches c (invalidate s) n

-- The flight of the slot tells how many exchanges are under way.
abbrev Counts : Slot → ℕ → Type 0
Counts s n = ((s.flight ≡ false) × (n ≡ 0)) ⊎ ((s.flight ≡ true) × (n ≡ 1))

look-flight :
    (c : Settings) (s : Slot) (now : ℕ)
    → ((look c s now).1 ≡ exchanges → ⊥)
    → (look c s now).0.flight ≡ s.flight
unfolding look look_kept
look-flight c s now h = ground arith

look-starts :
    (c : Settings) (s : Slot) (now : ℕ)
    → (look c s now).1 ≡ exchanges
    → (s.flight ≡ false) × ((look c s now).0.flight ≡ true)
unfolding look look_kept
look-starts c s now h = (ground arith, ground arith)

fail-flight :
    (c : Settings) (s : Slot) (err : Cause) (t : Readings) → (fail c s err t).0.flight ≡ s.flight
unfolding fail
fail-flight c s err t = ground arith

land-flight :
    (c : Settings) (s : Slot) (x : Cause ⊎ Entry) (t : Readings) → (land c s x t).0.flight ≡ false
unfolding land land_checked
land-flight c s (inl err) t = fail-flight c (record s { flight = false }) err t
land-flight c s (inr e) t = of_check (check_token c e t.at_check)
  where
    of_check :
        (y : Option Cause) → (land_checked c (record s { flight = false }) e y t).0.flight ≡ false
    of_check none = refl
    of_check (some err) = fail-flight c (record s { flight = false }) err t

counted : (c : Settings) (s : Slot) (n : ℕ) → Reaches c s n → Counts s n
unfolding invalidate
counted c _ _ made = inl (refl, refl)
counted c _ _ (looked s n now r other) =
    subst (λ b. ((b ≡ false) × (n ≡ 0)) ⊎ ((b ≡ true) × (n ≡ 1))) (sym (look-flight c s now other))
      (counted c s n r)
counted c _ _ (started s n now r go) =
    let (idle, busy) = look-starts c s now go in let before = counted c s n r in ground arith
counted c _ _ (landed s n x t r) =
    let before = counted c s (suc n) r in let idle = land-flight c s x t in ground arith
counted c _ _ (dropped s n r) = counted c s n r

-- However callers look, land and invalidate, at most one exchange of a slot is under way.
pub one_flight : (c : Settings) (s : Slot) (n : ℕ) → Reaches c s n → n ≤ 1
one_flight c s n r = ground (arith, counted c s n r)

-- The slot after looks at these readings of the clock.
unfoldable pub looks : Settings → Slot → List ℕ → Slot
looks c s [] = s
looks c s (now ∷ later) = looks c (look c s now).0 later

before_retry : (c : Settings) (s : Slot) (now : ℕ) → now < s.retry_at → (look c s now).1 ≢ exchanges
unfolding look look_kept
before_retry c s now early h = absurd (ground arith)

quiet_look : (c : Settings) (s : Slot) (now : ℕ) → ((look c s now).0.retry_at ≡ s.retry_at)
unfolding look look_kept
quiet_look c s now = ground arith

quiet_looks :
    (c : Settings) (s : Slot) (between : List ℕ) → (looks c s between).retry_at ≡ s.retry_at
unfolding looks
quiet_looks c s [] = refl
quiet_looks c s (now ∷ later) = quiet_looks c (look c s now).0 later ∙ quiet_look c s now

land-retry_at :
    (c : Settings) (s : Slot) (err : Cause) (t : Readings)
    → (land c s (inl err) t).0.retry_at ≡ t.at_retry + backoff c (s.failures + 1)
unfolding land fail
land-retry_at c s err t = ground arith

-- After a failed exchange no look before the wait is over starts another one, whatever looks came in
-- between, as long as none lands and none invalidates.
pub quiet_after_failure :
    (c : Settings) (s : Slot) (err : Cause) (t : Readings) (between : List ℕ) (now : ℕ)
    → now < t.at_retry + backoff c (s.failures + 1)
    → (look c (looks c (land c s (inl err) t).0 between) now).1 ≢ exchanges
quiet_after_failure c s err t between now early =
    before_retry c (looks c (land c s (inl err) t).0 between) now
      (ground (arith, quiet_looks c (land c s (inl err) t).0 between, land-retry_at c s err t))
