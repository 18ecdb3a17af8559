-- ===== src/Authverify/ServiceAccount.antt =====
-- The claims of a service account token: ServiceAccountClaims and parseServiceAccountClaims of
-- authverify/service_account_token.go.
use dev_health_go.Base.{ℕ, Str, codes, eq_str, List, [], ◌∷◌, Option, some}
use dev_health_go.Base.Options.{◌>>=◌, ◌>>◌, guard}
use dev_health_go.Platform.{Platform}
use dev_health_go.Authverify.Patterns.{is_issuer, is_subject, is_jti, is_org_id, is_credential_id}
use dev_health_go.Authverify.Document.{
  closed_set, string_member, any_text, numeric_date, decode_object,
}
use dev_health_go.Authverify.Access.{dates_hold}

pub record ServiceAccountClaims : Type 0 where
  pub issuer : Str
  pub audience : Str
  pub subject : Str
  pub org_id : Str
  pub credential_id : Str
  pub token_id : Str
  pub issued_at : ℕ
  pub not_before : ℕ
  pub expires_at : ℕ

abbrev pub typ_service_account_token : Str
typ_service_account_token = codes "sa+jwt"

abbrev pub service_account_token_audience : Str
service_account_token_audience = codes "dev-health-api"

-- WorkloadTokenLifetimeCeiling, in seconds.
abbrev pub service_account_lifetime_ceiling : ℕ
service_account_lifetime_ceiling = 300

abbrev pub service_account_claims_members : List Str
service_account_claims_members =
    codes "iss"
    ∷ codes "aud"
    ∷ codes "sub"
    ∷ codes "principal_type"
    ∷ codes "org_id"
    ∷ codes "cid"
    ∷ codes "jti"
    ∷ codes "iat"
    ∷ codes "nbf"
    ∷ codes "exp"
    ∷ []

module _ (p : Platform) where
  -- `parseServiceAccountClaims`
  unfoldable pub parse_service_account_claims : Str → Option ServiceAccountClaims
  unfolding decode_object
  parse_service_account_claims raw = do
    o ← decode_object p raw
    guard (closed_set o service_account_claims_members service_account_claims_members)
    iss ← string_member o (codes "iss") is_issuer
    aud ← string_member o (codes "aud") any_text
    sub ← string_member o (codes "sub") is_subject
    org ← string_member o (codes "org_id") is_org_id
    cid ← string_member o (codes "cid") is_credential_id
    jti ← string_member o (codes "jti") is_jti
    guard (eq_str aud service_account_token_audience)
    kind ← string_member o (codes "principal_type") any_text
    guard (eq_str kind (codes "service_account"))
    iat ← numeric_date o (codes "iat")
    nbf ← numeric_date o (codes "nbf")
    exp ← numeric_date o (codes "exp")
    guard (dates_hold service_account_lifetime_ceiling iat nbf exp)
    some record {
      issuer = iss;
      audience = aud;
      subject = sub;
      org_id = org;
      credential_id = cid;
      token_id = jti;
      issued_at = iat;
      not_before = nbf;
      expires_at = exp;
    }
