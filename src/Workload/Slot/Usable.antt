-- ===== src/Workload/Slot/Usable.antt =====
-- Only a token inside its window is returned (workloadtoken/client.go, Token).
use dev_health_go.Base.{
  ℕ, ◌+◌, ◌≤◌, ◌<◌, ◌≡◌, refl, Str, false, Option, none, some, ◌⊎◌, inl, inr, arith,
}
use mathlib.Core.Sum.{inr-injective}
use dev_health_go.Workload.Slot.{
  Cause, Claims, Entry, Slot, Settings, check_token, returns, look_kept, look, fail, land_checked,
  land, Readings,
}

-- An entry whose token may be sent at `now`: its claims are right, it is valid already, and the margin ends
-- before both its expiry and the lifetime that the exchange gave it.
pub record IsUsable (c : Settings) (e : Entry) (now : ℕ) : Type 0 where
  pub claims : Claims
  pub read : e.claims ≡ inr claims
  pub started : claims.not_before ≤ now
  pub unexpired : now + c.margin < claims.expires
  pub living : now + c.margin < e.sent + e.lifetime

-- The slot holds an entry with the token, usable at `now`.
pub record Holds (c : Settings) (s : Slot) (token : Str) (now : ℕ) : Type 0 where
  pub entry : Entry
  pub held : s.entry ≡ some entry
  pub same : entry.token ≡ token
  pub usable : IsUsable c entry now

-- The exchange gave an entry with the token, usable at `now`, and the slot now holds that entry.
pub record IsExchanged (c : Settings) (x : Cause ⊎ Entry) (after : Slot) (token : Str) (now : ℕ)
    : Type 0 where
  pub entry : Entry
  pub given : x ≡ inr entry
  pub stored : after.entry ≡ some entry
  pub same : entry.token ≡ token
  pub usable : IsUsable c entry now

check_token-IsUsable :
    (c : Settings) (e : Entry) (now : ℕ) → check_token c e now ≡ none → IsUsable c e now
unfolding check_token
check_token-IsUsable c e now h = from_claims e.claims refl
  where
    from_claims : (x : Cause ⊎ Claims) → e.claims ≡ x → IsUsable c e now
    from_claims (inl err) p = absurd (ground arith)
    from_claims (inr k) p = record {
      claims = k;
      read = p;
      started = ground arith;
      unexpired = ground arith;
      living = ground arith;
    }

-- A failed exchange returns the token the slot holds only while it is usable.
fail-Holds :
    (c : Settings) (s : Slot) (err : Cause) (t : Readings) (token : Str) (x : Option Entry)
    → s.entry ≡ x
    → (fail c s err t).1 ≡ inr token
    → Holds c s token t.at_entry
unfolding fail
fail-Holds c s err t token none p h = absurd (ground arith)
fail-Holds c s err t token (some e) p h = record {
  entry = e;
  held = p;
  same = ground arith;
  usable = check_token-IsUsable c e t.at_entry (ground arith);
}

-- A token that Token returns from its first section is that of the entry the slot holds, and that entry is
-- usable at the reading of the clock there.
pub look-IsUsable :
    (c : Settings) (s : Slot) (now : ℕ) (token : Str)
    → (look c s now).1 ≡ returns token
    → Holds c s token now
unfolding look look_kept
look-IsUsable c s now token h = from_entry s.entry refl
  where
    from_entry : (x : Option Entry) → s.entry ≡ x → Holds c s token now
    from_entry none p = absurd (ground arith)
    from_entry (some e) p = record {
      entry = e;
      held = p;
      same = ground arith;
      usable = check_token-IsUsable c e now (ground arith);
    }

-- A token that Token returns from its second section is that of the entry the exchange gave, usable at the
-- reading of the clock where it is checked and then held by the slot, or that of the entry the slot already
-- held, usable at the last reading.
pub land-IsUsable :
    (c : Settings) (s : Slot) (x : Cause ⊎ Entry) (t : Readings) (token : Str)
    → (land c s x t).1 ≡ inr token
    → IsExchanged c x (land c s x t).0 token t.at_check ⊎ Holds c s token t.at_entry
unfolding land land_checked
land-IsUsable c s (inl err) t token h = inr (held s.entry refl h)
  where
    held :
        (y : Option Entry)
        → s.entry ≡ y
        → (fail c (record s { flight = false }) err t).1 ≡ inr token
        → Holds c s token t.at_entry
    held y p r =
        let k = fail-Holds c (record s { flight = false }) err t token y p r in
        record { entry = k.entry; held = k.held; same = k.same; usable = k.usable }
land-IsUsable c s (inr e) t token h = of_check (check_token c e t.at_check) refl h
  where
    of_check :
        (y : Option Cause)
        → check_token c e t.at_check ≡ y
        → (land_checked c (record s { flight = false }) e y t).1 ≡ inr token
        → IsExchanged c
            (inr e)
            (land_checked c (record s { flight = false }) e y t).0
            token
            t.at_check
          ⊎ Holds c s token t.at_entry
    of_check none p r = inl record {
      entry = e;
      given = refl;
      stored = refl;
      same = inr-injective e.token token r;
      usable = check_token-IsUsable c e t.at_check p;
    }
    of_check (some err) p r =
        let k = fail-Holds c (record s { flight = false }) err t token s.entry refl r in
        inr record { entry = k.entry; held = k.held; same = k.same; usable = k.usable }
