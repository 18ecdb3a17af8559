-- ===== src/Authverify/Class.antt =====
-- The shape of a token of one class: what the three Verify of authverify/ do before they use a key. They
-- are one text but for the class of the token, its typ and its claims.
use dev_health_go.Base.{ℕ, Str, ◌++◌, ◌∷◌, Option, some}
use dev_health_go.Base.Options.{◌>>=◌}
use dev_health_go.Platform.{Platform}
use dev_health_go.Authverify.Compact.{split_compact, parse_header}
use dev_health_go.Authverify.Access.{AccessClaims, typ_access_token, parse_access_claims}
use dev_health_go.Authverify.WorkloadToken.{
  WorkloadClaims, typ_workload_token, parse_workload_claims,
}
use dev_health_go.Authverify.ServiceAccount.{
  ServiceAccountClaims, typ_service_account_token, parse_service_account_claims,
}

-- A class of tokens: what the three Verify differ in.
pub record Class (C : Type 0) : Type 0 where
  pub token_type : Str
  pub parse_claims : Str → Option C
  pub issuer_of : C → Str
  pub audience_of : C → Str
  pub not_before_of : C → ℕ
  pub expires_of : C → ℕ

-- A token whose shape is right: what the rest of Verify uses of it.
pub record Parsed (C : Type 0) : Type 0 where
  pub message : Str
  pub signature_part : Str
  pub kid : Str
  pub claims : C

module _ (p : Platform) {C : Type 0} (class : Class C) where
  -- Verify up to its first use of a key; `none` is its refusal with the reason contract.
  unfoldable pub read_token : Str → Option (Parsed C)
  unfolding split_compact parse_header
  read_token token = do
    parts ← split_compact p token
    header_raw ← p.decode_strict parts.0
    payload_raw ← p.decode_strict parts.1
    kid ← parse_header p class.token_type header_raw
    claims ← class.parse_claims payload_raw
    some record {
      message = parts.0 ++ b'.' ∷ parts.1;
      signature_part = parts.2;
      kid = kid;
      claims = claims;
    }

module _ (p : Platform) where
  abbrev pub access : Class AccessClaims
  access = record {
    token_type = typ_access_token;
    parse_claims = parse_access_claims p;
    issuer_of = λ c. c.issuer;
    audience_of = λ c. c.audience;
    not_before_of = λ c. c.not_before;
    expires_of = λ c. c.expires_at;
  }

  abbrev pub workload : Class WorkloadClaims
  workload = record {
    token_type = typ_workload_token;
    parse_claims = parse_workload_claims p;
    issuer_of = λ c. c.issuer;
    audience_of = λ c. c.audience;
    not_before_of = λ c. c.not_before;
    expires_of = λ c. c.expires_at;
  }

  abbrev pub service_account : Class ServiceAccountClaims
  service_account = record {
    token_type = typ_service_account_token;
    parse_claims = parse_service_account_claims p;
    issuer_of = λ c. c.issuer;
    audience_of = λ c. c.audience;
    not_before_of = λ c. c.not_before;
    expires_of = λ c. c.expires_at;
  }
