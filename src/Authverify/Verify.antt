-- ===== src/Authverify/Verify.antt =====
-- Verify of the three verifiers (authverify/accesstoken.go, workload_token.go,
-- service_account_token.go). An instant is nanoseconds since 1970.
pub mod Sound
pub mod Lifetime
pub mod Classes
mod Tests
use dev_health_go.Base.{
  ℕ, ◌+◌, ◌/◌, Str, eq_str, length, Bool, true, false, not, ◌&&◌, ◌==◌, ltb, leb, Option, none,
  some,
}
use dev_health_go.Pep.Json.{contains}
use dev_health_go.Platform.{Platform}
use dev_health_go.Authverify.Verdict.{
  Verdict, accepted, refused, unavailable, Reason, contract, unknown_kid, signature, issuer,
  audience, not_yet_valid, expired, ◌>>=◌, ◌>>◌, require, or_refuse,
}
use dev_health_go.Authverify.Verifier.{
  second, public_key_size, signature_size, Verifier, lookup_key,
}
use dev_health_go.Authverify.Access.{AccessClaims}
use dev_health_go.Authverify.WorkloadToken.{WorkloadClaims}
use dev_health_go.Authverify.ServiceAccount.{ServiceAccountClaims}
use dev_health_go.Authverify.Class.{Class, Parsed, read_token, access, workload, service_account}

-- The signature part is strict base64url of 64 bytes that verify under the key.
abbrev pub signed : Platform → Str → Str → Option Str → Bool
signed p key message none = false
signed p key message (some raw) = length raw == signature_size && p.verify_signature key message raw

module _ (p : Platform) {C : Type 0} (class : Class C) (v : Verifier) where
  -- The issuer, the audience and the window of a token whose signature is right.
  unfoldable pub check_claims : C → ℕ → Verdict C
  check_claims claims now = do
    require (eq_str (class.issuer_of claims) v.issuer) issuer
    require (eq_str (class.audience_of claims) v.audience) audience
    require (not (ltb (now / second + v.leeway) (class.not_before_of claims))) not_yet_valid
    require (not (leb (class.expires_of claims + v.leeway) (now / second))) expired
    accepted claims

  -- The key by kid and the signature.
  unfoldable pub check_signature : Parsed C → Verdict (Unit {0})
  unfolding lookup_key
  check_signature t = do
    require (not (contains v.denied t.kid)) unknown_kid
    held ← lookup_key v.keys t.kid
    key ← or_refuse held unknown_kid
    require (length key == public_key_size) unknown_kid
    require (signed p key t.message (p.decode_strict t.signature_part)) signature

  unfoldable pub verify : Str → ℕ → Verdict C
  unfolding read_token check_signature check_claims
  verify token now = do
    t ← or_refuse (read_token p class token) contract
    check_signature t
    check_claims t.claims now

module _ (p : Platform) (v : Verifier) where
  -- `Verifier.Verify`
  unfoldable pub verify_access : Str → ℕ → Verdict AccessClaims
  unfolding verify
  verify_access token now = verify p (access p) v token now

  -- `WorkloadVerifier.Verify`
  unfoldable pub verify_workload : Str → ℕ → Verdict WorkloadClaims
  unfolding verify
  verify_workload token now = verify p (workload p) v token now

  -- `ServiceAccountVerifier.Verify`
  unfoldable pub verify_service_account : Str → ℕ → Verdict ServiceAccountClaims
  unfolding verify
  verify_service_account token now = verify p (service_account p) v token now
