-- ===== src/Authverify/Verify/Lifetime.antt =====
-- The contracts of the three classes of tokens, and how old a token can be that is accepted
-- (authverify/accesstoken_wire.go, workload_token.go, service_account_token.go).
use dev_health_go.Base.{
  ℕ, ◌+◌, ◌/◌, ◌≤◌, ◌<◌, ◌≡◌, refl, subst, Str, eq_str→eq, true, Option, none, some, Option-cases,
  inl, inr, arith,
}
use dev_health_go.Pep.Json.{contains}
use dev_health_go.Platform.{Platform}
use dev_health_go.Authverify.Patterns.{is_issuer, is_subject, is_org_id, is_credential_id}
use dev_health_go.Authverify.Document.{string_member}
use dev_health_go.Authverify.Verdict.{accepted}
use dev_health_go.Authverify.Verifier.{
  Verifier, VerifierConfig, second, new_verifier, new_workload_verifier,
  new_service_account_verifier,
}
use dev_health_go.Authverify.Access.{
  AccessClaims, parse_access_claims, scope_by_audience, is_scope_of,
}
use dev_health_go.Authverify.WorkloadToken.{
  WorkloadClaims, workload_audiences, workload_claims_of, parse_workload_claims,
}
use dev_health_go.Authverify.ServiceAccount.{
  ServiceAccountClaims, service_account_token_audience, parse_service_account_claims,
}
use dev_health_go.Authverify.Class.{Class, Parsed, read_token, access, workload, service_account}
use dev_health_go.Authverify.Verify.{verify_access, verify_workload, verify_service_account}
use dev_health_go.Authverify.Compact.{split_compact}
use dev_health_go.Authverify.Verify.Sound.{verify_iff, IsCurrent}

-- Issued no later than it begins, over after it has begun, and for no longer than the ceiling.
pub record IsBounded (ceiling iat nbf exp : ℕ) : Type 0 where
  pub ordered : iat ≤ nbf
  pub lasting : nbf < exp
  pub short : exp ≤ iat + ceiling

-- What an access token that is read says.
pub record IsAccessContract (c : AccessClaims) : Type 0 where
  pub scoped : scope_by_audience c.audience ≡ some c.scope
  pub from : is_issuer c.issuer ≡ true
  pub about : is_subject c.subject ≡ true
  pub bounded : IsBounded 3600 c.issued_at c.not_before c.expires_at

pub record IsWorkloadContract (c : WorkloadClaims) : Type 0 where
  pub addressed : contains workload_audiences c.audience ≡ true
  pub from : is_issuer c.issuer ≡ true
  pub about : is_subject c.subject ≡ true
  pub bounded : IsBounded 300 c.issued_at c.not_before c.expires_at

pub record IsServiceAccountContract (c : ServiceAccountClaims) : Type 0 where
  pub addressed : c.audience ≡ service_account_token_audience
  pub from : is_issuer c.issuer ≡ true
  pub about : is_subject c.subject ≡ true
  pub within : is_org_id c.org_id ≡ true
  pub exchanged : is_credential_id c.credential_id ≡ true
  pub bounded : IsBounded 300 c.issued_at c.not_before c.expires_at

is_scope_of-eq : (o : Option Str) (s : Str) → is_scope_of o s ≡ true → o ≡ some s
is_scope_of-eq none s h = absurd (ground arith)
is_scope_of-eq (some t) s h = ground (arith, eq_str→eq s t)

module _ (p : Platform) (raw : Str) where
  access_contract : (c : AccessClaims) → parse_access_claims p raw ≡ some c → IsAccessContract c
  unfolding parse_access_claims string_member
  access_contract c h = record {
    scoped = ground (arith, is_scope_of-eq (scope_by_audience c.audience) c.scope);
    from = ground arith;
    about = ground arith;
    bounded = record { ordered = ground arith; lasting = ground arith; short = ground arith };
  }

  workload_contract :
      (c : WorkloadClaims) → parse_workload_claims p raw ≡ some c → IsWorkloadContract c
  unfolding parse_workload_claims workload_claims_of string_member
  workload_contract c h = record {
    addressed = ground arith;
    from = ground arith;
    about = ground arith;
    bounded = record { ordered = ground arith; lasting = ground arith; short = ground arith };
  }

  service_account_contract :
      (c : ServiceAccountClaims)
      → parse_service_account_claims p raw ≡ some c
      → IsServiceAccountContract c
  unfolding parse_service_account_claims string_member
  service_account_contract c h = record {
    addressed = ground (arith, eq_str→eq c.audience service_account_token_audience);
    from = ground arith;
    about = ground arith;
    within = ground arith;
    exchanged = ground arith;
    bounded = record { ordered = ground arith; lasting = ground arith; short = ground arith };
  }

-- The claims of a token that is read are those of some payload.
module _ (p : Platform) {C : Type 0} (class : Class C) (token : Str) (t : Parsed C) where
  abbrev Carried : Type 0
  Carried = (raw : Str) × (class.parse_claims raw ≡ some t.claims)

  claims_of_parts :
      (parts : Str × Str × Str) (payload : Option Str)
      → split_compact p token ≡ some parts
      → p.decode_strict parts.1 ≡ payload
      → read_token p class token ≡ some t
      → Carried
  unfolding read_token
  claims_of_parts parts none split decoded h = absurd (ground arith)
  claims_of_parts parts (some raw) split decoded h = (raw, ground arith)

  claims_read : read_token p class token ≡ some t → Carried
  unfolding read_token
  claims_read h = elim (Option-cases (split_compact p token)) [
    | inl e ↦ absurd (ground arith)
    | inr (parts, e) ↦ claims_of_parts parts (p.decode_strict parts.1) e refl h
  ]

module _ (p : Platform) (v : Verifier) (token : Str) (now : ℕ) where
  access_read :
      (c : AccessClaims)
      → verify_access p v token now ≡ accepted c
      → IsAccessContract c × IsCurrent (access p) v now c
  unfolding verify_access
  access_read c h =
      let good = (verify_iff p (access p) v token now c).0 h in
      let (raw, e) = claims_read p (access p) token good.parsed good.shaped in
      (
        subst IsAccessContract good.carried (access_contract p raw good.parsed.claims e),
        good.is_current,
      )

  workload_read :
      (c : WorkloadClaims)
      → verify_workload p v token now ≡ accepted c
      → IsWorkloadContract c × IsCurrent (workload p) v now c
  unfolding verify_workload
  workload_read c h =
      let good = (verify_iff p (workload p) v token now c).0 h in
      let (raw, e) = claims_read p (workload p) token good.parsed good.shaped in
      (
        subst IsWorkloadContract good.carried (workload_contract p raw good.parsed.claims e),
        good.is_current,
      )

  service_account_read :
      (c : ServiceAccountClaims)
      → verify_service_account p v token now ≡ accepted c
      → IsServiceAccountContract c × IsCurrent (service_account p) v now c
  unfolding verify_service_account
  service_account_read c h =
      let good = (verify_iff p (service_account p) v token now c).0 h in
      let (raw, e) = claims_read p (service_account p) token good.parsed good.shaped in
      (
        subst IsServiceAccountContract good.carried
            (service_account_contract p raw good.parsed.claims e),
        good.is_current,
      )

-- The age of a token at an instant is at most `most` seconds, and it was issued at most `early` seconds after it.
abbrev pub IsRecent : ℕ → ℕ → ℕ → ℕ → Type 0
IsRecent most early iat seconds = (seconds < iat + most) × (iat ≤ seconds + early)

recent :
    (ceiling most : ℕ) {iat nbf exp : ℕ} (seconds leeway : ℕ)
    → leeway ≤ most
    → IsBounded ceiling iat nbf exp
    → nbf ≤ seconds + leeway
    → seconds < exp + leeway
    → IsRecent (ceiling + most) most iat seconds
recent ceiling most seconds leeway small bounds begun not_over =
    (omega (arith, bounds.short), omega (arith, bounds.ordered))

module _ (p : Platform) (cfg : VerifierConfig) (v : Verifier) (token : Str) (now : ℕ) where
  new_verifier-leeway : new_verifier cfg ≡ some v → v.leeway ≤ 60
  unfolding new_verifier
  new_verifier-leeway made = ground arith

  new_workload_verifier-leeway : new_workload_verifier cfg ≡ some v → v.leeway ≤ 30
  unfolding new_workload_verifier
  new_workload_verifier-leeway made = ground arith

  new_service_account_verifier-leeway : new_service_account_verifier cfg ≡ some v → v.leeway ≤ 30
  unfolding new_service_account_verifier
  new_service_account_verifier-leeway made = ground arith

  -- A verifier that NewVerifier makes accepts an access token only if its scope is the one of its audience, its
  -- issuer and subject have their forms, iat <= nbf < exp <= iat + 3600, and it was issued less than 3660
  -- seconds before the instant and at most 60 seconds after it.
  pub verify_access-IsRecent :
      new_verifier cfg ≡ some v
      → (c : AccessClaims) → verify_access p v token now ≡ accepted c
      → IsAccessContract c × IsRecent 3660 60 c.issued_at (now / second)
  verify_access-IsRecent made c h =
      let (contract, current) = access_read p v token now c h in
      (
        contract,
        recent 3600 60 (now / second) v.leeway (new_verifier-leeway made) contract.bounded
            current.begun current.not_over,
      )

  -- A verifier that NewWorkloadVerifier makes accepts a workload token only if its audience is a workload
  -- audience, its issuer and subject have their forms, iat <= nbf < exp <= iat + 300, and it was issued
  -- less than 330 seconds before the instant and at most 30 seconds after it.
  pub verify_workload-IsRecent :
      new_workload_verifier cfg ≡ some v
      → (c : WorkloadClaims) → verify_workload p v token now ≡ accepted c
      → IsWorkloadContract c × IsRecent 330 30 c.issued_at (now / second)
  verify_workload-IsRecent made c h =
      let (contract, current) = workload_read p v token now c h in
      (
        contract,
        recent 300 30 (now / second) v.leeway (new_workload_verifier-leeway made) contract.bounded
            current.begun current.not_over,
      )

  -- A verifier that NewServiceAccountVerifier makes accepts a service account token only if its audience is
  -- dev-health-api, its issuer, subject, organization and credential id have their forms,
  -- iat <= nbf < exp <= iat + 300, and it was issued less than 330 seconds before the instant and at most 30
  -- seconds after it.
  pub verify_service_account-IsRecent :
      new_service_account_verifier cfg ≡ some v
      → (c : ServiceAccountClaims) → verify_service_account p v token now ≡ accepted c
      → IsServiceAccountContract c × IsRecent 330 30 c.issued_at (now / second)
  verify_service_account-IsRecent made c h =
      let (contract, current) = service_account_read p v token now c h in
      (
        contract,
        recent 300 30 (now / second) v.leeway (new_service_account_verifier-leeway made)
            contract.bounded current.begun current.not_over,
      )
