-- ===== src/Pep/Decision/Reasons.antt =====
-- The reasons of a decision: pep/internal/decision/decision.go lines 13-66 and pep/decision.go. The
-- reason of the zero Decision, the empty string, is `unset`.
pub mod Laws
use dev_health_go.Base.{
  ℕ, Str, codes, eq_str, List, [], ◌∷◌, Bool, true, false, Option, none, some, if◌then◌else◌,
}

pub data Reason : Type 0 where
  allowed_by_membership_default allowed_by_repository_grant allowed_by_role : Reason
  allowed_by_platform_admin delegation_invalid grant_absent grant_expired grant_revoked : Reason
  impersonation_denied invalid_request membership_inactive no_membership org_mismatch : Reason
  organization_inactive platform_role_absent principal_inactive : Reason
  repository_allowlist_too_large repository_not_granted resource_mismatch : Reason
  role_lacks_action role_scope_mismatch role_unknown service_account_inactive : Reason
  unknown_action workload_action_denied workload_audience_denied unreachable timeout : Reason
  canceled unavailable rate_limited refused malformed too_large mismatch : Reason
  unknown_obligation local_invalid not_configured no_decision : Reason
  unset : Reason

-- The string that the constant holds.
abbrev pub text : Reason → Str
text allowed_by_membership_default = codes "allowed_by_membership_default"
text allowed_by_repository_grant = codes "allowed_by_repository_grant"
text allowed_by_role = codes "allowed_by_role"
text allowed_by_platform_admin = codes "allowed_by_platform_admin"
text delegation_invalid = codes "delegation_invalid"
text grant_absent = codes "grant_absent"
text grant_expired = codes "grant_expired"
text grant_revoked = codes "grant_revoked"
text impersonation_denied = codes "impersonation_denied"
text invalid_request = codes "invalid_request"
text membership_inactive = codes "membership_inactive"
text no_membership = codes "no_membership"
text org_mismatch = codes "org_mismatch"
text organization_inactive = codes "organization_inactive"
text platform_role_absent = codes "platform_role_absent"
text principal_inactive = codes "principal_inactive"
text repository_allowlist_too_large = codes "repository_allowlist_too_large"
text repository_not_granted = codes "repository_not_granted"
text resource_mismatch = codes "resource_mismatch"
text role_lacks_action = codes "role_lacks_action"
text role_scope_mismatch = codes "role_scope_mismatch"
text role_unknown = codes "role_unknown"
text service_account_inactive = codes "service_account_inactive"
text unknown_action = codes "unknown_action"
text workload_action_denied = codes "workload_action_denied"
text workload_audience_denied = codes "workload_audience_denied"
text unreachable = codes "pdp_unreachable"
text timeout = codes "pdp_timeout"
text canceled = codes "pdp_canceled"
text unavailable = codes "pdp_unavailable"
text rate_limited = codes "pdp_rate_limited"
text refused = codes "pdp_refused"
text malformed = codes "pdp_malformed"
text too_large = codes "pdp_too_large"
text mismatch = codes "pdp_mismatch"
text unknown_obligation = codes "pdp_unknown_obligation"
text local_invalid = codes "pdp_invalid_request"
text not_configured = codes "pdp_not_configured"
text no_decision = codes "pdp_no_decision"
text unset = []

-- `len(r) > 4 && r[:4] == "pdp_"`
abbrev pub has_local_prefix : Str → Bool
has_local_prefix (a ∷ b ∷ c ∷ d ∷ e ∷ s) = eq_str (a ∷ b ∷ c ∷ d ∷ []) (codes "pdp_")
has_local_prefix _ = false

unfoldable pub is_local : Reason → Bool
unfolding eq_str
is_local r = has_local_prefix (text r)

unfoldable pub allow_reason : Reason → Bool
allow_reason allowed_by_membership_default = true
allow_reason allowed_by_repository_grant = true
allow_reason allowed_by_role = true
allow_reason allowed_by_platform_admin = true
allow_reason _ = false

abbrev pub wire_reasons : List Reason
wire_reasons =
    allowed_by_membership_default ∷ allowed_by_repository_grant ∷ allowed_by_role
    ∷ delegation_invalid ∷ grant_absent ∷ grant_expired ∷ grant_revoked ∷ impersonation_denied
    ∷ invalid_request ∷ membership_inactive ∷ no_membership ∷ org_mismatch ∷ organization_inactive
    ∷ platform_role_absent ∷ principal_inactive ∷ repository_allowlist_too_large
    ∷ repository_not_granted ∷ resource_mismatch ∷ role_lacks_action ∷ role_scope_mismatch
    ∷ role_unknown ∷ service_account_inactive ∷ unknown_action ∷ workload_action_denied
    ∷ workload_audience_denied ∷ []

abbrev pub local_reasons : List Reason
local_reasons =
    unreachable ∷ timeout ∷ canceled ∷ unavailable ∷ rate_limited ∷ refused ∷ malformed ∷ too_large
    ∷ mismatch ∷ unknown_obligation ∷ local_invalid ∷ not_configured ∷ no_decision ∷ []

abbrev pub accept_ahead_reasons : List Reason
accept_ahead_reasons = allowed_by_platform_admin ∷ []

-- A loop of `wireReason`: the first reason of the list whose text is `s`.
pub find_reason : Str → List Reason → Option Reason
find_reason s [] = none
find_reason s (w ∷ ws) = if eq_str (text w) s then some w else find_reason s ws

unfoldable pub wire_reason : Str → Option Reason
unfolding find_reason eq_str
wire_reason s = elim (find_reason s wire_reasons) [
  | some r ↦ some r
  | none ↦ find_reason s accept_ahead_reasons
]
