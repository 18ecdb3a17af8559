-- ===== src/Pep/Checked.antt =====
-- A step of the client that may end in a local deny: its closed local reason and the HTTP status, 0
-- where there is none (pep/errors.go, `Error`, `fail` and `failStatus`).
use dev_health_go.Base.{ℕ, Bool, true, false, Option, none, some, ◌≡◌, refl}
use dev_health_go.Pep.Decision.{Decision, error, local}
use dev_health_go.Pep.Decision.Reasons.{Reason}

pub data Checked {ℓ} (A : Type ℓ) : Type ℓ where
  ok : A → Checked A
  fail_status : Reason → ℕ → Checked A

abbrev pub fail {ℓ} : {A : Type ℓ} → Reason → Checked A
fail r = fail_status r 0

infixl 5 ◌>>=◌ ◌>>◌
abbrev pub ◌>>=◌ {ℓ κ} : {A : Type ℓ} {B : Type κ} → Checked A → (A → Checked B) → Checked B
ok x >>= next = next x
fail_status r n >>= next = fail_status r n

abbrev pub ◌>>◌ {ℓ} : {B : Type ℓ} → Checked (Unit {0}) → Checked B → Checked B
m >> k = m >>= λ _. k

-- `if !test { return fail(r) }`
abbrev pub require : Bool → Reason → Checked (Unit {0})
require true r = ok tt
require false r = fail r

abbrev pub some_or_fail {ℓ} : {A : Type ℓ} → Option A → Reason → Checked A
some_or_fail none r = fail r
some_or_fail (some a) r = ok a

-- A step that succeeds has passed through both of its parts.
pub >>=-eq-ok {ℓ κ} :
    {A : Type ℓ} {B : Type κ} (m : Checked A) (next : A → Checked B) {result : B}
    → (m >>= next) ≡ ok result
    → (x : A) × (m ≡ ok x) × (next x ≡ ok result)
>>=-eq-ok (ok x) next passed = (x, refl, passed)
>>=-eq-ok (fail_status r n) next passed = cc

pub require->>-eq-ok {ℓ} :
    {A : Type ℓ} (b : Bool) (r : Reason) (k : Checked A) {a : A}
    → (require b r >> k) ≡ ok a
    → (b ≡ true) × (k ≡ ok a)
require->>-eq-ok true r k h = (refl, h)
require->>-eq-ok false r k h = cc

pub ok-injective {ℓ} : {A : Type ℓ} {a b : A} → ok a ≡ ok b → a ≡ b
ok-injective h = cc

-- `deny`
unfoldable pub deny : Reason → ℕ → Decision
deny r n = local r (error r n)
