-- ===== src/Pep/Decision/Tests.antt =====
-- Decisions and obligations at concrete documents.
use dev_health_go.Base.{codes, ◌≡◌, ◌≢◌, ◌↔◌, refl, true, false, ◌⊎◌, some, [], ◌∷◌}
use dev_health_go.Pep.Decision.{
  Wire, from_wire, ObligationSpec, new_obligations, no_obligations, tenant_allows,
  repository_allowed, assurance_satisfied_by,
}
use dev_health_go.Pep.Decision.Reasons.{grant_absent, allow_reason}
use dev_health_go.Pep.Decision.Laws.{
  repository_allowed_iff, CoversKey, denied_grants_nothing, tenant_allows-new_obligations,
}

abbrev spec : ObligationSpec
spec = record {
  tenant = codes "org-1";
  scope = [];
  allowlist = some (codes "acme/api" ∷ []);
  redaction = [];
  assurance = codes "aal1";
  step_up = false;
}

abbrev denying : Wire
denying = record {
  allowed = false;
  reason = grant_absent;
  decision_id = codes "dec";
  principal_id = codes "p";
  organization = codes "org-1";
  has_org = true;
  policy_revision = 7;
  expires_at = 100;
  cacheable = true;
  obligations = new_obligations spec;
}

repository_allowed_example :
    (repository_allowed (new_obligations spec) (codes "acme/api") ≡ true)
    ↔ CoversKey (new_obligations spec) (codes "acme/api")
repository_allowed_example = repository_allowed_iff (new_obligations spec) (codes "acme/api")

denied_grants_nothing_example :
    (repository_allowed (from_wire denying).obligations (codes "acme/api") ≡ false)
    × (tenant_allows (from_wire denying).obligations (codes "org-1") ≡ false)
    × (assurance_satisfied_by (from_wire denying).obligations (codes "aal3") ≡ false)
    × ((from_wire denying).obligations ≡ no_obligations)
unfolding from_wire allow_reason
denied_grants_nothing_example =
    denied_grants_nothing denying (codes "acme/api") (codes "org-1") (codes "aal3") refl

tenant_allows_example :
    (tenant_allows (new_obligations spec) (codes "org-1") ≡ true)
    ↔ ((codes "org-1" ≢ []) × ((spec.tenant ≡ []) ⊎ (spec.tenant ≡ codes "org-1")))
tenant_allows_example = tenant_allows-new_obligations spec (codes "org-1")
