-- ===== src/Pep/Wire.antt =====
-- pep/wire.go: the decision document and the batch response, read against the requests they answer.
pub mod Sound
pub mod Allowlist
pub mod Batch
use dev_health_go.Base.{
  ℕ, suc, zero, ◌+◌, ◌≤◌, Str, codes, eq_str, is_empty, length, List, [], ◌∷◌, ◌++◌, map, Bool,
  true, false, not, ◌&&◌, ◌||◌, ◌==◌, leb, ltb, all, is_lower, is_upper, is_digit, if◌then◌else◌,
  Option, none, some, replicate, is_some, ◌⊎◌, inl, inr,
}
use dev_health_go.RepoKey
use dev_health_go.Pep.Json.{
  Value, null, bool, number, text, object, array, Members, end, member, contains, lookup, names,
  is_present, keys_within, as_object, as_array, as_string, as_bool, no_duplicates,
}
use dev_health_go.Pep.Checked.{
  Checked, ok, fail, fail_status, ◌>>=◌, ◌>>◌, require, some_or_fail, deny,
}
use dev_health_go.Pep.Expiry.{parse_revision, parse_expiry}
use dev_health_go.Pep.Request.{Request, max_batch, is_token_char}
use dev_health_go.Pep.Decision.{
  Obligations, ObligationSpec, empty_spec, no_obligations, new_obligations, scope_organization,
  Decision, Wire, from_wire, is_local_deny, same, Cause, error, err_of,
}
use dev_health_go.Pep.Decision.Reasons.{
  Reason, malformed, mismatch, unknown_obligation, allow_reason, wire_reason,
}

abbrev pub decision_schema : Str
decision_schema = codes "authorization_decision.v1"

abbrev pub batch_schema : Str
batch_schema = codes "authorization_batch_response.v1"

abbrev pub max_repository_allowlist : ℕ
max_repository_allowlist = 256

abbrev pub obligation_names : List Str
obligation_names =
    codes "tenant_scope"
    ∷ codes "repository_allowlist"
    ∷ codes "repository_scope"
    ∷ codes "redaction"
    ∷ codes "minimum_assurance"
    ∷ codes "step_up"
    ∷ []

abbrev pub redaction_classes : List Str
redaction_classes = codes "personal_identifiers" ∷ codes "contact_details" ∷ codes "free_text" ∷ []

abbrev pub assurance_levels : List Str
assurance_levels = codes "aal1" ∷ codes "aal2" ∷ codes "aal3" ∷ []

-- ^dec_[A-Za-z0-9_-]{26}$
unfoldable pub is_decision_id : Str → Bool
unfolding eq_str
is_decision_id (a ∷ b ∷ c ∷ d ∷ s) =
    eq_str (a ∷ b ∷ c ∷ d ∷ []) (codes "dec_") && length s == 26 && all is_token_char s
is_decision_id _ = false

-- ^prn_[A-Za-z0-9_-]+$
unfoldable pub is_principal_id : Str → Bool
unfolding eq_str
is_principal_id (a ∷ b ∷ c ∷ d ∷ s) =
    eq_str (a ∷ b ∷ c ∷ d ∷ []) (codes "prn_") && not (is_empty s) && all is_token_char s
is_principal_id _ = false

-- The member of the name as a string, or the failure.
abbrev pub string_at : Str → Members → Reason → Checked Str
string_at k o r = elim (lookup k o) [ none ↦ fail r | some v ↦ some_or_fail (as_string v) r ]

-- The loop over the allowlist's items, on what it has appended.
pub allowlist_from : List Str → List Value → Checked (List Str)
allowlist_from done [] = ok done
allowlist_from done (v ∷ vs) = do
  s ← some_or_fail (as_string v) malformed
  require (RepoKey.valid s && not (contains done s)) malformed
  allowlist_from (done ++ s ∷ []) vs

-- The loop over the redaction classes; `seen` and the classes appended are one list.
pub redaction_from : List Str → List Value → Checked (List Str)
redaction_from seen [] = ok seen
redaction_from seen (v ∷ vs) = do
  s ← some_or_fail (as_string v) malformed
  require (not (contains seen s)) malformed
  require (contains redaction_classes s) unknown_obligation
  redaction_from (seen ++ s ∷ []) vs

-- The members of `decodeObligations`, one by one.
unfoldable pub decode_tenant : Members → Checked Str
decode_tenant o = elim (lookup (codes "tenant_scope") o) [
  | none ↦ ok []
  | some v ↦ do s ← some_or_fail (as_string v) malformed; require (not (is_empty s)) malformed; ok s
]

unfoldable pub decode_scope : Members → Checked Str
decode_scope o = elim (lookup (codes "repository_scope") o) [
  | none ↦ ok []
  | some v ↦ do
    s ← some_or_fail (as_string v) malformed
    require (eq_str s scope_organization) unknown_obligation
    ok scope_organization
]

unfoldable pub decode_allowlist : Members → Checked (Option (List Str))
unfolding allowlist_from
decode_allowlist o = elim (lookup (codes "repository_allowlist") o) [
  | none ↦ ok none
  | some v ↦ do
    items ← some_or_fail (as_array v) malformed
    require (leb (length items) max_repository_allowlist) malformed
    keys ← allowlist_from [] items
    ok (some keys)
]

unfoldable pub decode_redaction : Members → Checked (List Str)
unfolding redaction_from
decode_redaction o = elim (lookup (codes "redaction") o) [
  | none ↦ ok []
  | some v ↦ do items ← some_or_fail (as_array v) malformed; redaction_from [] items
]

unfoldable pub decode_assurance : Members → Checked Str
decode_assurance o = elim (lookup (codes "minimum_assurance") o) [
  | none ↦ ok []
  | some v ↦ do
    s ← some_or_fail (as_string v) malformed
    require (contains assurance_levels s) unknown_obligation
    ok s
]

unfoldable pub decode_step_up : Members → Checked Bool
decode_step_up o = elim (lookup (codes "step_up") o) [
  | none ↦ ok false
  | some v ↦ some_or_fail (as_bool v) malformed
]

unfoldable pub decode_spec : Members → Checked ObligationSpec
decode_spec o = do
  require (all (contains obligation_names) (names o)) unknown_obligation
  tenant ← decode_tenant o
  require
      (not (is_present (codes "repository_scope") o && is_present (codes "repository_allowlist") o))
      malformed
  scope ← decode_scope o
  allowlist ← decode_allowlist o
  redaction ← decode_redaction o
  assurance ← decode_assurance o
  step_up ← decode_step_up o
  ok (record {
    tenant = tenant;
    scope = scope;
    allowlist = allowlist;
    redaction = redaction;
    assurance = assurance;
    step_up = step_up;
  })

unfoldable pub decode_obligations : Value → Checked Obligations
decode_obligations raw = do
  o ← some_or_fail (as_object raw) malformed
  spec ← decode_spec o
  ok (new_obligations spec)

abbrev pub decision_members : List Str
decision_members =
    codes "schema_version"
    ∷ codes "decision_id"
    ∷ codes "allowed"
    ∷ codes "reason_code"
    ∷ codes "principal_id"
    ∷ codes "organization_id"
    ∷ codes "policy_revision"
    ∷ codes "expires_at"
    ∷ []

-- The organization: `none` for null, which is a platform decision.
abbrev organization_of : Option Value → Checked (Option Str)
organization_of none = fail malformed
organization_of (some null) = ok none
organization_of (some v) = do
  s ← some_or_fail (as_string v) malformed
  require (not (is_empty s)) malformed
  ok (some s)

abbrev object_at : Option Value → Checked Members
object_at none = fail malformed
object_at (some v) = some_or_fail (as_object v) malformed

abbrev pub array_at : Option Value → Checked (List Value)
array_at none = fail malformed
array_at (some v) = some_or_fail (as_array v) malformed

abbrev revision_of : Option Value → Checked ℕ
revision_of (some (number raw)) = some_or_fail (parse_revision raw) malformed
revision_of _ = fail malformed

abbrev allowed_of : Option Value → Checked Bool
allowed_of none = fail malformed
allowed_of (some v) = some_or_fail (as_bool v) malformed

abbrev pub obligations_of : Option Value → Bool → Checked Obligations
obligations_of none allowed = ok (if allowed then new_obligations empty_spec else no_obligations)
obligations_of (some raw) allowed = do require allowed malformed; decode_obligations raw

abbrev or_empty : Option Str → Str
or_empty none = []
or_empty (some s) = s

-- `w.HasOrg != (req.OrganizationID != "") || (w.HasOrg && w.Organization != req.OrganizationID)`,
-- the other way round.
abbrev pub answers : Option Str → Str → Bool
answers none asked = is_empty asked
answers (some s) asked = not (is_empty asked) && eq_str s asked

-- `decodeDecision` up to its last line.
unfoldable pub decode_wire : Members → Request → ℕ → Checked Wire
decode_wire o req now = do
  require (keys_within o decision_members (codes "obligations" ∷ [])) malformed
  version ← string_at (codes "schema_version") o malformed
  require (eq_str version decision_schema) malformed
  decision_id ← string_at (codes "decision_id") o malformed
  require (is_decision_id decision_id) malformed
  allowed ← allowed_of (lookup (codes "allowed") o)
  code ← string_at (codes "reason_code") o malformed
  reason ← some_or_fail (wire_reason code) malformed
  require (same allowed (allow_reason reason)) malformed
  principal_id ← string_at (codes "principal_id") o malformed
  require (is_principal_id principal_id) malformed
  organization ← organization_of (lookup (codes "organization_id") o)
  revision ← revision_of (lookup (codes "policy_revision") o)
  expires ← string_at (codes "expires_at") o malformed
  expires_at ← some_or_fail (parse_expiry expires) malformed
  obligations ← obligations_of (lookup (codes "obligations") o) allowed
  require (answers organization req.organization_id) mismatch
  ok (record {
    allowed = allowed;
    reason = reason;
    decision_id = decision_id;
    principal_id = principal_id;
    organization = or_empty organization;
    has_org = is_some organization;
    policy_revision = revision;
    expires_at = expires_at;
    cacheable = ltb now expires_at;
    obligations = obligations;
  })

abbrev pub to_decision : Checked Wire → Decision
to_decision (ok w) = from_wire w
to_decision (fail_status r n) = deny r n

unfoldable pub decode_decision : Members → Request → ℕ → Decision
decode_decision o req now = to_decision (decode_wire o req now)

abbrev pub decode_object : Option Members → Request → ℕ → Decision
decode_object none req now = deny malformed 0
decode_object (some o) req now = decode_decision o req now

-- `parseDecision`, on the document's tree: `none` where the body is not one JSON value.
unfoldable pub parse_decision : Option Value → Request → ℕ → Decision
parse_decision none req now = deny malformed 0
parse_decision (some v) req now =
    if not (no_duplicates v) then deny malformed 0 else decode_object (as_object v) req now

-- `denyAll`
unfoldable pub deny_all : Reason → ℕ → ℕ → List Decision
deny_all r status n = replicate n (deny r status)

abbrev pub deny_all_of : Cause → ℕ → List Decision
deny_all_of (error r status) n = deny_all r status n
deny_all_of _ n = deny_all malformed 0 n

-- `e, _ := d.Err().(*Error)`, and a malformed answer where that is nil.
abbrev pub deny_all_by : Option Cause → ℕ → List Decision
deny_all_by none n = deny_all malformed 0 n
deny_all_by (some e) n = deny_all_of e n

-- One item of the batch response: its index and its decision.
unfoldable pub read_entry : Value → Checked (ℕ × Members)
read_entry v = do
  entry ← some_or_fail (as_object v) malformed
  require (keys_within entry (codes "index" ∷ codes "decision" ∷ []) []) malformed
  index ← revision_of (lookup (codes "index") entry)
  require (ltb index max_batch) malformed
  inner ← object_at (lookup (codes "decision") entry)
  ok (index, inner)

pub read_entries : List Value → Checked (List (ℕ × Members))
read_entries [] = ok []
read_entries (v ∷ vs) = do ok ((← read_entry v) ∷ (← read_entries vs))

-- The loop over the indexes: each is its position.
pub in_order : ℕ → List (ℕ × Members) → Bool
in_order i [] = true
in_order i ((index, inner) ∷ es) = index == i && in_order (i + 1) es

-- The loop over the entries: `inr` is the decisions, `inl` the cause of the first local deny.
pub decode_entries : ℕ → List (ℕ × Members) → List Request → Option Cause ⊎ List Decision
decode_entries now [] reqs = inr []
decode_entries now (e ∷ es) [] = inr []
decode_entries now ((index, inner) ∷ es) (r ∷ rs) =
    let rest = decode_entries now es rs in
    let d = decode_decision inner r now in
    if is_local_deny d then inl (err_of d) else elim rest [ inl e ↦ inl e | inr ds ↦ inr (d ∷ ds) ]

-- `parseBatch` up to its loop over the items: the items, 1 to 100 of them.
unfoldable pub batch_items : Option Value → Checked (List Value)
batch_items body = do
  v ← some_or_fail body malformed
  require (no_duplicates v) malformed
  o ← some_or_fail (as_object v) malformed
  require (keys_within o (codes "schema_version" ∷ codes "decisions" ∷ []) []) malformed
  version ← string_at (codes "schema_version") o malformed
  require (eq_str version batch_schema) malformed
  items ← array_at (lookup (codes "decisions") o)
  require (leb 1 (length items) && leb (length items) max_batch) malformed
  ok items

-- The loop over the items, and the two checks that follow it.
unfoldable pub batch_entries : ℕ → List Value → Checked (List (ℕ × Members))
batch_entries count items = do
  entries ← read_entries items
  require (length items == count) mismatch
  require (in_order 0 entries) mismatch
  ok entries

-- `parseBatch` up to the decoding of the entries.
unfoldable pub read_batch : Option Value → ℕ → Checked (List (ℕ × Members))
read_batch body count = do items ← batch_items body; batch_entries count items

abbrev pub to_decisions : Option Cause ⊎ List Decision → ℕ → List Decision
to_decisions (inl e) n = deny_all_by e n
to_decisions (inr ds) n = ds

abbrev pub answer_batch : Checked (List (ℕ × Members)) → List Request → ℕ → List Decision
answer_batch (fail_status r status) reqs now = deny_all r status (length reqs)
answer_batch (ok entries) reqs now = to_decisions (decode_entries now entries reqs) (length reqs)

unfoldable pub parse_batch : Option Value → List Request → ℕ → List Decision
parse_batch body reqs now = answer_batch (read_batch body (length reqs)) reqs now
