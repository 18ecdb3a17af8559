-- ===== src/Authverify/Verdict.antt =====
-- What a verifier answers: Reason, RefusalError and UnavailableError of authverify/accesstoken.go.
use dev_health_go.Base.{Bool, true, false, Option, none, some}

pub data Reason : Type 0 where
  contract unknown_kid signature issuer audience not_yet_valid expired : Reason

pub data Verdict {ℓ} (A : Type ℓ) : Type ℓ where
  accepted : A → Verdict A
  refused : Reason → Verdict A
  unavailable : Verdict A

infixl 5 ◌>>=◌ ◌>>◌
abbrev pub ◌>>=◌ {ℓ κ} : {A : Type ℓ} {B : Type κ} → Verdict A → (A → Verdict B) → Verdict B
accepted a >>= next = next a
refused r >>= next = refused r
unavailable >>= next = unavailable

abbrev pub ◌>>◌ {ℓ} : {B : Type ℓ} → Verdict (Unit {0}) → Verdict B → Verdict B
m >> k = m >>= λ _. k

-- `if !test { return nil, refuse(r) }`
abbrev pub require : Bool → Reason → Verdict (Unit {0})
require true r = accepted tt
require false r = refused r

abbrev pub or_refuse {ℓ} : {A : Type ℓ} → Option A → Reason → Verdict A
or_refuse none r = refused r
or_refuse (some a) r = accepted a
