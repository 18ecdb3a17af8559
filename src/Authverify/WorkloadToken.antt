-- ===== src/Authverify/WorkloadToken.antt =====
-- The claims of a workload token: WorkloadClaims and parseWorkloadClaims of
-- authverify/workload_token.go.
use dev_health_go.Base.{ℕ, Str, codes, eq_str, List, [], ◌∷◌, Option, some}
use dev_health_go.Base.Options.{◌>>=◌, ◌>>◌, guard}
use dev_health_go.Pep.Json.{Members, contains}
use dev_health_go.Platform.{Platform}
use dev_health_go.Authverify.Patterns.{is_issuer, is_subject, is_jti}
use dev_health_go.Authverify.Document.{
  closed_set, string_member, any_text, numeric_date, decode_object,
}
use dev_health_go.Authverify.Access.{dates_hold}

pub record WorkloadClaims : Type 0 where
  pub issuer : Str
  pub audience : Str
  pub subject : Str
  pub token_id : Str
  pub issued_at : ℕ
  pub not_before : ℕ
  pub expires_at : ℕ

abbrev pub typ_workload_token : Str
typ_workload_token = codes "workload+jwt"

-- WorkloadTokenLifetimeCeiling, in seconds.
abbrev pub workload_lifetime_ceiling : ℕ
workload_lifetime_ceiling = 300

abbrev pub workload_audiences : List Str
workload_audiences = codes "auth-service" ∷ codes "dev-health-api" ∷ []

abbrev pub workload_claims_members : List Str
workload_claims_members =
    codes "iss"
    ∷ codes "aud"
    ∷ codes "sub"
    ∷ codes "principal_type"
    ∷ codes "jti"
    ∷ codes "iat"
    ∷ codes "nbf"
    ∷ codes "exp"
    ∷ []

-- What parseWorkloadClaims reads of the object, after its set of members is checked.
unfoldable pub workload_claims_of : Members → Option WorkloadClaims
workload_claims_of o = do
  iss ← string_member o (codes "iss") is_issuer
  aud ← string_member o (codes "aud") any_text
  sub ← string_member o (codes "sub") is_subject
  jti ← string_member o (codes "jti") is_jti
  guard (contains workload_audiences aud)
  kind ← string_member o (codes "principal_type") any_text
  guard (eq_str kind (codes "workload"))
  iat ← numeric_date o (codes "iat")
  nbf ← numeric_date o (codes "nbf")
  exp ← numeric_date o (codes "exp")
  guard (dates_hold workload_lifetime_ceiling iat nbf exp)
  some record {
    issuer = iss;
    audience = aud;
    subject = sub;
    token_id = jti;
    issued_at = iat;
    not_before = nbf;
    expires_at = exp;
  }

module _ (p : Platform) where
  -- `parseWorkloadClaims`
  unfoldable pub parse_workload_claims : Str → Option WorkloadClaims
  unfolding decode_object
  parse_workload_claims raw = do
    o ← decode_object p raw
    guard (closed_set o workload_claims_members workload_claims_members)
    workload_claims_of o
