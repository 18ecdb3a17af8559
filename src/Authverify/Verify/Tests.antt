-- ===== src/Authverify/Verify/Tests.antt =====
-- The verifiers on concrete tokens. The platform of the tests decodes a part to itself and reads the
-- documents named below.
use dev_health_go.Base.{
  ℕ, ◌*◌, ◌≡◌, ◌≢◌, refl, Str, codes, eq_str, List, [], ◌∷◌, true, Option, none, some, replicate,
  if◌then◌else◌, arith,
}
use dev_health_go.Base.{split}
use dev_health_go.Pep.Expiry.{value_from}
use dev_health_go.Authverify.Patterns.{
  is_issuer, is_subject, is_session, is_jti, is_kid, is_org_id, is_credential_id,
}
use dev_health_go.Authverify.Document.{
  string_member, numeric_date, closed_set, scan_value, decode_object,
}
use dev_health_go.Authverify.Compact.{split_compact, parse_header}
use dev_health_go.Pep.Json.{contains, lookup, Value, text, number, object, Members, member, end}
use dev_health_go.Platform.{Platform}
use dev_health_go.Authverify.Verdict.{accepted, refused, contract, issuer, expired}
use dev_health_go.Authverify.Verifier.{
  Verifier, VerifierConfig, KeySource, static_keys, lookup_key, second, new_verifier,
  new_workload_verifier, new_service_account_verifier,
}
use dev_health_go.Authverify.Access.{
  AccessClaims, parse_access_claims, scope_by_audience, org_id_of, actor_of,
}
use dev_health_go.Authverify.WorkloadToken.{
  WorkloadClaims, parse_workload_claims, workload_claims_of,
}
use dev_health_go.Authverify.ServiceAccount.{ServiceAccountClaims, parse_service_account_claims}
use dev_health_go.Authverify.Class.{Parsed, read_token, access, workload}
use dev_health_go.Authverify.Verify.{
  verify, check_signature, check_claims, verify_access, verify_workload, verify_service_account,
}
use dev_health_go.Authverify.Verify.Sound.{IsGood, verify_iff, verify_late-IsSigned, IsSigned}
use dev_health_go.Authverify.Verify.Lifetime.{
  IsRecent, IsAccessContract, IsWorkloadContract, IsServiceAccountContract, verify_access-IsRecent,
  verify_workload-IsRecent, verify_service_account-IsRecent,
}
use dev_health_go.Authverify.Verify.Classes.{verify-other_class}

abbrev an_issuer : Str
an_issuer = codes "https://auth.example"

abbrev api : Str
api = codes "dev-health-api"

abbrev a_subject : Str
a_subject = codes "prn_1"

abbrev an_id : Str
an_id = replicate 22 b'a'

abbrev an_org : Str
an_org = codes "00000000-0000-0000-0000-000000000000"

abbrev header_of : Str → Value
header_of typ = object (
    member (codes "alg") (text (codes "EdDSA"))
      (member (codes "typ") (text typ) (member (codes "kid") (text (codes "k1")) end)))

abbrev dates : Members
dates = member (codes "iat") (number (codes "1000")) (
    member (codes "nbf") (number (codes "1000")) (member (codes "exp") (number (codes "1300")) end))

-- The claims that the three classes share, and then more.
abbrev claims_with : Str → Members → Value
claims_with kind more = object (
    member (codes "iss") (text an_issuer) (
      member (codes "aud") (text api) (
        member (codes "sub") (text a_subject)
          (member (codes "principal_type") (text kind) (member (codes "jti") (text an_id) more)))))

abbrev human_claims : Value
human_claims = claims_with (codes "human") (
    member (codes "sid") (text (codes "ses_aaaaaaaaaaaaaaaaaaaaaa"))
      (member (codes "scope") (text (codes "api:access")) dates))

abbrev service_claims : Value
service_claims =
    claims_with (codes "service_account")
      (member (codes "org_id") (text an_org) (member (codes "cid") (text (codes "crd_1")) dates))

abbrev value_at : List (Str × Value) → Str → Option Value
value_at [] name = none
value_at ((k, v) ∷ rest) name =
    let later = value_at rest name in if eq_str k name then some v else later

abbrev documents : Str → Option Value
documents = value_at (
    (codes "h", header_of (codes "at+jwt"))
    ∷ (codes "i", header_of (codes "workload+jwt"))
    ∷ (codes "j", header_of (codes "sa+jwt"))
    ∷ (codes "k", human_claims)
    ∷ (codes "l", claims_with (codes "workload") dates)
    ∷ (codes "m", service_claims)
    ∷ [])

abbrev platform : Platform
platform = record {
  equal_fold = eq_str;
  trim_space = λ s. s;
  decode_strict = λ s. if eq_str s (codes "s") then some (replicate 64 7) else some s;
  decode_loose = λ s. some s;
  read = documents;
  media_type = λ s. some s;
  verify_signature = λ key message raw. true;
}

abbrev keys : KeySource
keys = static_keys ((codes "k1", replicate 32 1) ∷ [])

abbrev config : VerifierConfig
config = record {
  issuer = an_issuer;
  audience = api;
  keys = some keys;
  denied_kids = codes "k0" ∷ [];
  leeway = 30 * second;
}

abbrev verifier : Verifier
verifier = record {
  issuer = an_issuer;
  audience = api;
  keys = keys;
  denied = codes "k0" ∷ [];
  leeway = 30;
}

abbrev elsewhere : Verifier
elsewhere = record {
  issuer = codes "https://other.example";
  audience = api;
  keys = keys;
  denied = [];
  leeway = 30;
}

abbrev human_token : Str
human_token = codes "h.k.s"

abbrev workload_token : Str
workload_token = codes "i.l.s"

abbrev service_token : Str
service_token = codes "j.m.s"

abbrev the_human : AccessClaims
the_human = record {
  issuer = an_issuer;
  audience = api;
  subject = a_subject;
  session_id = codes "ses_aaaaaaaaaaaaaaaaaaaaaa";
  token_id = an_id;
  scope = codes "api:access";
  org_id = none;
  actor_subject = none;
  issued_at = 1000;
  not_before = 1000;
  expires_at = 1300;
}

abbrev the_workload : WorkloadClaims
the_workload = record {
  issuer = an_issuer;
  audience = api;
  subject = a_subject;
  token_id = an_id;
  issued_at = 1000;
  not_before = 1000;
  expires_at = 1300;
}

abbrev the_service : ServiceAccountClaims
the_service = record {
  issuer = an_issuer;
  audience = api;
  subject = a_subject;
  org_id = an_org;
  credential_id = codes "crd_1";
  token_id = an_id;
  issued_at = 1000;
  not_before = 1000;
  expires_at = 1300;
}

abbrev noon : ℕ
noon = 1329 * second

human_accepted : verify_access platform verifier human_token noon ≡ accepted the_human
unfolding verify_access eq_str verify parse_access_claims scope_by_audience org_id_of actor_of
    is_issuer is_subject is_session is_jti is_kid is_org_id is_credential_id contains lookup
    split_compact string_member numeric_date closed_set value_from scan_value decode_object
    parse_header read_token lookup_key static_keys check_signature check_claims split
human_accepted = refl

workload_accepted : verify_workload platform verifier workload_token noon ≡ accepted the_workload
unfolding verify_workload eq_str verify parse_workload_claims workload_claims_of is_issuer
    is_subject is_session is_jti is_kid is_org_id is_credential_id contains lookup split_compact
    string_member numeric_date closed_set value_from scan_value decode_object parse_header
    read_token lookup_key static_keys check_signature check_claims split
workload_accepted = refl

service_accepted :
    verify_service_account platform verifier service_token noon ≡ accepted the_service
unfolding verify_service_account eq_str verify parse_service_account_claims is_issuer is_subject
    is_session is_jti is_kid is_org_id is_credential_id contains lookup split_compact string_member
    numeric_date closed_set value_from scan_value decode_object parse_header read_token lookup_key
    static_keys check_signature check_claims split
service_accepted = refl

-- At the end of the window, widened by the leeway.
workload_expired :
    verify_workload platform verifier workload_token (1330 * second) ≡ refused expired
unfolding verify_workload eq_str verify parse_workload_claims workload_claims_of is_issuer
    is_subject is_session is_jti is_kid is_org_id is_credential_id contains lookup split_compact
    string_member numeric_date closed_set value_from scan_value decode_object parse_header
    read_token lookup_key static_keys check_signature check_claims split
workload_expired = refl

refused_elsewhere :
    verify platform (workload platform) elsewhere workload_token noon ≡ refused issuer
unfolding verify eq_str parse_workload_claims workload_claims_of is_issuer is_subject is_session
    is_jti is_kid is_org_id is_credential_id contains lookup split_compact string_member
    numeric_date closed_set value_from scan_value decode_object parse_header read_token lookup_key
    static_keys check_signature check_claims split
refused_elsewhere = refl

made : new_workload_verifier config ≡ some verifier
unfolding new_workload_verifier eq_str is_issuer contains split
made = refl

access_made : new_verifier config ≡ some verifier
unfolding new_verifier eq_str is_issuer scope_by_audience split
access_made = refl

service_made : new_service_account_verifier config ≡ some verifier
unfolding new_service_account_verifier eq_str is_issuer contains split
service_made = refl

differs : codes "workload+jwt" ≢ codes "at+jwt"
differs e = ground (arith, e)

verify_iff_example : IsGood platform (workload platform) verifier workload_token noon the_workload
unfolding verify_workload
verify_iff_example =
    (verify_iff platform (workload platform) verifier workload_token noon the_workload).0
      workload_accepted

verify_late-IsSigned_example :
    (t : Parsed WorkloadClaims) × (read_token platform (workload platform) workload_token ≡ some t)
    × IsSigned platform elsewhere t
verify_late-IsSigned_example =
    verify_late-IsSigned platform (workload platform) elsewhere workload_token noon issuer refl
      refused_elsewhere

verify_access-IsRecent_example : IsAccessContract the_human × IsRecent 3660 60 1000 1329
verify_access-IsRecent_example =
    verify_access-IsRecent platform config verifier human_token noon access_made the_human
      human_accepted

verify_workload-IsRecent_example : IsWorkloadContract the_workload × IsRecent 330 30 1000 1329
verify_workload-IsRecent_example =
    verify_workload-IsRecent platform config verifier workload_token noon made the_workload
      workload_accepted

verify_service_account-IsRecent_example :
    IsServiceAccountContract the_service × IsRecent 330 30 1000 1329
verify_service_account-IsRecent_example =
    verify_service_account-IsRecent platform config verifier service_token noon service_made
      the_service service_accepted

verify-other_class_example :
    verify platform (access platform) verifier workload_token noon ≡ refused contract
unfolding verify_workload
verify-other_class_example =
    verify-other_class platform (workload platform) (access platform) differs verifier verifier
      workload_token noon noon the_workload workload_accepted
