-- ===== src/Pep/Decision.antt =====
-- pep/internal/decision/decision.go and pep/decision.go: the decision value, its reasons and its
-- obligations. A Go string is a list of bytes; a string of a closed set is a constructor with its
-- text. An instant is the nanoseconds since Go's zero time.
pub mod Reasons
pub mod Laws
mod Tests
use dev_health_go.Base.{
  ℕ, Str, codes, eq_str, is_empty, List, [], ◌∷◌, Bool, true, false, not, ◌&&◌, ◌||◌, ◌==◌, leb,
  any, Option, none, some, if◌then◌else◌,
}
use dev_health_go.RepoKey.{valid_slug}
use Reasons.{Reason, malformed, no_decision, unset, is_local, allow_reason}

-- The typed cause of a local deny (pep/errors.go, `Error`): the reason and the HTTP status, 0 where
-- there is none. The other causes are the two error values of the decision package.
pub data Cause : Type 0 where
  error : Reason → ℕ → Cause
  no_decision_error inconsistent_error : Cause

abbrev pub scope_organization : Str
scope_organization = codes "organization"

pub record Obligations : Type 0 where
  pub granted : Bool
  pub tenant : Str
  pub has_tenant : Bool
  pub allowlist : List Str
  pub has_allowlist : Bool
  pub scope : Str
  pub redaction : List Str
  pub assurance : Str
  pub has_assurance : Bool
  pub step_up : Bool

abbrev pub no_obligations : Obligations
no_obligations = record {
  granted = false;
  tenant = [];
  has_tenant = false;
  allowlist = [];
  has_allowlist = false;
  scope = [];
  redaction = [];
  assurance = [];
  has_assurance = false;
  step_up = false;
}

-- `allowlist` is `none` for a nil slice, the absent member.
pub record ObligationSpec : Type 0 where
  pub tenant : Str
  pub scope : Str
  pub allowlist : Option (List Str)
  pub redaction : List Str
  pub assurance : Str
  pub step_up : Bool

abbrev pub empty_spec : ObligationSpec
empty_spec = record {
  tenant = [];
  scope = [];
  allowlist = none;
  redaction = [];
  assurance = [];
  step_up = false;
}

abbrev list_of : Option (List Str) → List Str
list_of none = []
list_of (some l) = l

abbrev present : Option (List Str) → Bool
present none = false
present (some l) = true

unfoldable pub new_obligations : ObligationSpec → Obligations
new_obligations s = record {
  granted = true;
  tenant = s.tenant;
  has_tenant = not (is_empty s.tenant);
  allowlist = list_of s.allowlist;
  has_allowlist = present s.allowlist;
  scope = s.scope;
  redaction = s.redaction;
  assurance = s.assurance;
  has_assurance = not (is_empty s.assurance);
  step_up = s.step_up;
}

unfoldable pub assurance_rank : Str → ℕ
unfolding eq_str
assurance_rank a =
    if eq_str a (codes "aal1")
    then 1
    else if eq_str a (codes "aal2")
    then 2
    else if eq_str a (codes "aal3")
    then 3
    else 0

unfoldable pub tenant_allows : Obligations → Str → Bool
tenant_allows o org =
    if not o.granted || is_empty org then false else not o.has_tenant || eq_str o.tenant org

unfoldable pub repository_scope_organization : Obligations → Bool
repository_scope_organization o = o.granted && eq_str o.scope scope_organization

-- One round of the loop of `RepositoryAllowed` over the allowlist.
abbrev pub names_key : Str → Str → Bool
names_key key k = eq_str k (codes "*") || eq_str k key

unfoldable pub repository_allowed : Obligations → Str → Bool
repository_allowed o key =
    if not o.granted || not (valid_slug key)
    then false
    else if eq_str o.scope scope_organization
    then true
    else any (names_key key) o.allowlist

unfoldable pub redacts : Obligations → Str → Bool
redacts o c = any (λ r. eq_str r c) o.redaction

unfoldable pub assurance_satisfied_by : Obligations → Str → Bool
assurance_satisfied_by o level =
    let have = assurance_rank level in
    if not o.granted || have == 0
    then false
    else not o.has_assurance || leb (assurance_rank o.assurance) have

pub record Decision : Type 0 where
  pub allowed : Bool
  pub reason : Reason
  pub err : Option Cause
  pub decision_id : Str
  pub principal_id : Str
  pub organization : Str
  pub has_org : Bool
  pub policy_revision : ℕ  -- uint64
  pub expires_at : ℕ
  pub cacheable : Bool
  pub obligations : Obligations

abbrev pub local_of : Reason → Option Cause → Decision
local_of r e = record {
  allowed = false;
  reason = r;
  err = e;
  decision_id = [];
  principal_id = [];
  organization = [];
  has_org = false;
  policy_revision = 0;
  expires_at = 0;
  cacheable = false;
  obligations = no_obligations;
}

-- `Decision{}`
abbrev pub zero_decision : Decision
zero_decision = local_of unset none

-- `Local`
unfoldable pub local : Reason → Cause → Decision
local r e = local_of r (some e)

pub record Wire : Type 0 where
  pub allowed : Bool
  pub reason : Reason
  pub decision_id : Str
  pub principal_id : Str
  pub organization : Str
  pub has_org : Bool
  pub policy_revision : ℕ
  pub expires_at : ℕ
  pub cacheable : Bool
  pub obligations : Obligations

abbrev pub same : Bool → Bool → Bool
same true b = b
same false b = not b

unfoldable pub from_wire : Wire → Decision
unfolding local
from_wire w =
    if not (same w.allowed (allow_reason w.reason))
    then local malformed inconsistent_error
    else record {
      allowed = w.allowed;
      reason = w.reason;
      err = none;
      decision_id = w.decision_id;
      principal_id = w.principal_id;
      organization = w.organization;
      has_org = w.has_org;
      policy_revision = w.policy_revision;
      expires_at = w.expires_at;
      cacheable = w.cacheable;
      obligations = if w.allowed then w.obligations else no_obligations;
    }

-- `Decision.Reason`, `Decision.Local` and `Decision.Err`
unfoldable pub reason_of : Decision → Reason
reason_of d = elim d.reason [ unset ↦ no_decision | r ↦ r ]

unfoldable pub is_local_deny : Decision → Bool
unfolding reason_of
is_local_deny d = is_local (reason_of d)

unfoldable pub err_of : Decision → Option Cause
err_of d = elim d.reason [ unset ↦ some no_decision_error | r ↦ d.err ]
