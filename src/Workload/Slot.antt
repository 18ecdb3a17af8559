-- ===== src/Workload/Slot.antt =====
-- workloadtoken/client.go and checkToken of workloadtoken/exchange.go: the slot of one (audience,
-- scope), and the two sections of Token that hold the mutex, one before and one after the exchange.
-- Instants are nanoseconds. What the token's text says (its shape and its claims) is the field
-- `claims`; the lifetime's part after which a refresh is due is a parameter, since it is a product
-- of floats.
pub mod Usable
pub mod Backoff
pub mod Flight
use dev_health_go.Base.{
  ℕ, suc, zero, ◌+◌, ◌-◌, ◌*◌, Str, Bool, true, false, not, ◌&&◌, ltb, leb, min, Option, none, some,
  ◌⊎◌, inl, inr, if◌then◌else◌, is_some,
}

-- The classes of a failed exchange or check.
pub data Cause : Type 0 where
  exchange_refused invalid_request unavailable subject_unreadable : Cause
  not_a_token payload_unreadable claims_shape not_an_integer dates_broken : Cause
  not_yet_valid outside_window : Cause

-- nbf and exp of a token whose shape and claims are right.
pub record Claims : Type 0 where
  pub not_before : ℕ
  pub expires : ℕ

pub record Entry : Type 0 where
  pub token : Str
  pub claims : Cause ⊎ Claims
  pub sent : ℕ
  pub lifetime : ℕ

pub record Slot : Type 0 where
  pub entry : Option Entry
  pub flight : Bool
  pub retry_at : ℕ
  pub failures : ℕ
  pub last_err : Option Cause

pub record Settings : Type 0 where
  pub margin : ℕ
  pub backoff_floor : ℕ
  pub backoff_ceiling : ℕ
  pub refresh_part : ℕ → ℕ

-- `&slot{}`
abbrev pub empty_slot : Slot
empty_slot = record { entry = none; flight = false; retry_at = 0; failures = 0; last_err = none }

-- `usableUntil`: where the margin is longer than the window it is 0, before no instant.
abbrev pub usable_until : Settings → Entry → Claims → ℕ
usable_until c e k = min k.expires (e.sent + e.lifetime) - c.margin

abbrev pub refresh_at : Settings → Entry → Claims → ℕ
refresh_at c e k = min (e.sent + c.refresh_part e.lifetime) (usable_until c e k)

abbrev in_window : Settings → Entry → Claims → ℕ → Option Cause
in_window c e k now =
    if ltb now k.not_before
    then some not_yet_valid
    else if not (ltb now (usable_until c e k))
    then some outside_window
    else none

-- `checkToken`: none where the token may be sent.
unfoldable pub check_token : Settings → Entry → ℕ → Option Cause
check_token c e now = elim e.claims [ inl err ↦ some err | inr k ↦ in_window c e k now ]

abbrev kept : Settings → ℕ → Option Entry → Option Entry
kept c now none = none
kept c now (some e) = if is_some (check_token c e now) then none else some e

abbrev due : Settings → ℕ → Cause ⊎ Claims → Entry → Bool
due c now (inl err) e = true
due c now (inr k) e = not (ltb now (refresh_at c e k))

abbrev refresh_due : Settings → ℕ → Option Entry → Bool
refresh_due c now none = true
refresh_due c now (some e) = due c now e.claims e

-- What the first section of Token does: return a token, wait for the exchange in flight, return an error,
-- or exchange.
pub data Look : Type 0 where
  returns : Str → Look
  waits : Look
  refuses : Option Cause → Look
  exchanges : Look

abbrev or_token : Option Entry → Look → Look
or_token none k = k
or_token (some e) k = returns e.token

-- The section once an entry that may not be sent is dropped.
unfoldable pub look_kept : Settings → Slot → ℕ → Slot × Look
look_kept c s now =
    if not (refresh_due c now s.entry)
    then (s, or_token s.entry waits)
    else if s.flight
    then (s, or_token s.entry waits)
    else if ltb now s.retry_at
    then (s, or_token s.entry (refuses s.last_err))
    else (record s { flight = true }, exchanges)

unfoldable pub look : Settings → Slot → ℕ → Slot × Look
look c s now = look_kept c (record s { entry = kept c now s.entry }) now

-- The loop of `backoff`, `n` rounds at most.
unfoldable pub double_to : ℕ → ℕ → ℕ → ℕ
double_to zero ceiling wait = wait
double_to (suc n) ceiling wait =
    let more = double_to n ceiling (wait * 2) in if ltb wait ceiling then more else wait

-- The loop counts from 1, so it has one round less than there are failures.
unfoldable pub backoff : Settings → ℕ → ℕ
unfolding double_to
backoff c failures =
    min (double_to (failures - 1) c.backoff_ceiling c.backoff_floor) c.backoff_ceiling

-- The three readings of the clock in the second section.
pub record Readings : Type 0 where
  pub at_check : ℕ
  pub at_retry : ℕ
  pub at_entry : ℕ

abbrev or_error : Slot → Option Entry → Cause → Slot × (Cause ⊎ Str)
or_error s none err = (record s { entry = none }, inl err)
or_error s (some e) err = (s, inr e.token)

-- The end of the second section for an exchange that failed.
unfoldable pub fail : Settings → Slot → Cause → Readings → Slot × (Cause ⊎ Str)
fail c s err t =
    or_error
      (record s {
        failures = s.failures + 1;
        last_err = some err;
        retry_at = t.at_retry + backoff c (s.failures + 1);
      })
      (kept c t.at_entry s.entry) err

abbrev pub succeed : Slot → Entry → Slot
succeed s e = record s { entry = some e; failures = 0; retry_at = 0; last_err = none }

unfoldable pub land_checked :
    Settings → Slot → Entry → Option Cause → Readings → Slot × (Cause ⊎ Str)
land_checked c s e none t = (succeed s e, inr e.token)
land_checked c s e (some err) t = fail c s err t

-- The second section: the answer of the exchange, or its failure.
unfoldable pub land : Settings → Slot → Cause ⊎ Entry → Readings → Slot × (Cause ⊎ Str)
land c s (inl err) t = fail c (record s { flight = false }) err t
land c s (inr e) t = land_checked c (record s { flight = false }) e (check_token c e t.at_check) t

-- Invalidate
unfoldable pub invalidate : Slot → Slot
invalidate s = record s { entry = none; retry_at = 0; failures = 0; last_err = none }
