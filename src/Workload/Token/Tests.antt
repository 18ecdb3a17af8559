-- ===== src/Workload/Token/Tests.antt =====
-- A token that the client checks and the verifier accepts. The platform of the test decodes a part to
-- itself and reads the two documents named below.
use dev_health_go.Base.{
  ◌*◌, ◌≡◌, refl, subst, sym, ◌∙◌, Str, codes, eq_str, split, [], ◌∷◌, Bool, true, false, not, ◌&&◌,
  Option, none, some, replicate, if◌then◌else◌, inr, arith, Bool-cases, inl,
}
use dev_health_go.Platform.{Platform}
use dev_health_go.Pep.Expiry.{value_from}
use dev_health_go.Pep.Json.{
  Value, null, bool, number, text, array, object, Members, member, end, lookup, contains, distinct,
}
use dev_health_go.Authverify.Patterns.{is_kid, is_subject, is_jti, is_issuer}
use dev_health_go.Authverify.Verdict.{accepted}
use dev_health_go.Authverify.Verifier.{Verifier, static_keys, lookup_key}
use dev_health_go.Authverify.WorkloadToken.{
  WorkloadClaims, workload_audiences, parse_workload_claims, workload_claims_of,
}
use dev_health_go.Authverify.Class.{Parsed, read_token, workload}
use dev_health_go.Authverify.Compact.{split_compact, parse_header}
use dev_health_go.Authverify.Document.{
  decode_object, scan_value, closed_set, string_member, numeric_date,
}
use dev_health_go.Authverify.Verify.{verify_workload}
use dev_health_go.Authverify.Verify.Sound.{IsSigned}
use dev_health_go.Workload.Slot.{Entry, Settings, check_token}
use dev_health_go.Workload.Token.{
  read_text, workload_token_shape, token_claims, claims_of, compact_jws, unique_object, parse_int,
  second,
}
use dev_health_go.Workload.Token.Dates.{has_leading_zero}
use dev_health_go.Workload.Token.Accepted.{IsStandard}
use dev_health_go.Workload.Token.Verified.{check_token-verified}

abbrev header : Members
header = member (codes "alg") (text (codes "EdDSA")) (
    member (codes "typ") (text (codes "workload+jwt"))
      (member (codes "kid") (text (codes "k1")) end))

abbrev payload : Members
payload = member (codes "iss") (text (codes "https://auth.example")) (
    member (codes "aud") (text (codes "dev-health-api")) (
      member (codes "sub") (text (codes "prn_1")) (
        member (codes "principal_type") (text (codes "workload")) (
          member (codes "jti") (text (replicate 22 b'a')) (
            member (codes "iat") (number (codes "1000")) (
              member (codes "nbf") (number (codes "1000"))
                (member (codes "exp") (number (codes "1300")) end)))))))

abbrev documents : Str → Option Value
documents s =
    if eq_str s (codes "h")
    then some (object header)
    else if eq_str s (codes "c")
    then some (object payload)
    else none

abbrev platform : Platform
platform = record {
  equal_fold = eq_str;
  trim_space = λ s. s;
  decode_strict = λ s. if eq_str s (codes "s") then some (replicate 64 7) else some s;
  decode_loose = λ s. some s;
  read = documents;
  media_type = λ s. some s;
  verify_signature = λ key message raw. true;
}

-- No number of the members starts with a zero.
abbrev no_leading_zeros : Members → Bool
no_leading_zeros end = true
no_leading_zeros (member k (number s) ms) = not (has_leading_zero s) && no_leading_zeros ms
no_leading_zeros (member k _ ms) = no_leading_zeros ms

lookup-number :
    (ms : Members) (k s : Str)
    → no_leading_zeros ms ≡ true
    → lookup k ms ≡ some (number s)
    → has_leading_zero s ≡ false
unfolding lookup
lookup-number end k s fine h = absurd (ground arith)
lookup-number (member j (number t) ms) k s fine h = ground (arith, lookup-number ms k s)
lookup-number (member j (text t) ms) k s fine h = ground (arith, lookup-number ms k s)
lookup-number (member j null ms) k s fine h = ground (arith, lookup-number ms k s)
lookup-number (member j (bool b) ms) k s fine h = ground (arith, lookup-number ms k s)
lookup-number (member j (array xs) ms) k s fine h = ground (arith, lookup-number ms k s)
lookup-number (member j (object os) ms) k s fine h = ground (arith, lookup-number ms k s)

documents_fine :
    (raw : Str) (o : Members) → documents raw ≡ some (object o) → no_leading_zeros o ≡ true
documents_fine raw o h = elim (Bool-cases (eq_str raw (codes "h"))) [
  | inl e ↦ ground arith
  | inr e ↦ elim (Bool-cases (eq_str raw (codes "c"))) [
    | inl f ↦ ground arith
    | inr f ↦ absurd (ground arith)
  ]
]

platform-IsStandard : IsStandard platform
platform-IsStandard = record {
  trims = λ s h. refl;
  folds = λ s t a b. refl;
  numbers = λ raw k s o h at. lookup-number o k s (documents_fine raw o h) at;
}

abbrev settings : Settings
settings = record {
  margin = 30 * second;
  backoff_floor = second;
  backoff_ceiling = 30 * second;
  refresh_part = λ lifetime. 0;
}

abbrev verifier : Verifier
verifier = record {
  issuer = codes "https://auth.example";
  audience = codes "dev-health-api";
  keys = static_keys ((codes "k1", replicate 32 1) ∷ []);
  denied = [];
  leeway = 0;
}

abbrev entry : Entry
entry = record {
  token = codes "h.c.s";
  claims =
      read_text platform (codes "h.c.s") (codes "https://auth.example") (codes "dev-health-api");
  sent = 1000 * second;
  lifetime = 300 * second;
}

passes : check_token settings entry (1100 * second) ≡ none
unfolding check_token read_text workload_token_shape token_claims claims_of compact_jws
    unique_object parse_int value_from split eq_str lookup contains distinct is_kid is_subject
    is_jti
passes = refl

abbrev parsed : Parsed WorkloadClaims
parsed = record {
  message = codes "h.c";
  signature_part = codes "s";
  kid = codes "k1";
  claims = record {
    issuer = codes "https://auth.example";
    audience = codes "dev-health-api";
    subject = codes "prn_1";
    token_id = replicate 22 b'a';
    issued_at = 1000;
    not_before = 1000;
    expires_at = 1300;
  };
}

reads : read_token platform (workload platform) (codes "h.c.s") ≡ some parsed
unfolding read_token split_compact parse_header decode_object scan_value closed_set string_member
    parse_workload_claims workload_claims_of numeric_date value_from split eq_str lookup contains
    is_kid is_subject is_jti is_issuer
reads = refl

parsed-IsSigned : IsSigned platform verifier parsed
unfolding lookup_key static_keys eq_str contains
parsed-IsSigned = record {
  key = replicate 32 1;
  trusted = refl;
  held = refl;
  sized = refl;
  verified = refl;
}

some-injective : {A : Type 0} {a b : A} → some a ≡ some b → a ≡ b
some-injective h = cc

from_issuer : is_issuer (codes "https://auth.example") ≡ true
unfolding is_issuer split eq_str
from_issuer = refl

for_audience : contains workload_audiences (codes "dev-health-api") ≡ true
unfolding contains eq_str
for_audience = refl

signs :
    (t : Parsed WorkloadClaims)
    → read_token platform (workload platform) (codes "h.c.s") ≡ some t
    → IsSigned platform verifier t
signs t h = subst (IsSigned platform verifier) (some-injective (sym reads ∙ h)) parsed-IsSigned

check_token-verified_example :
    (c : WorkloadClaims) × (verify_workload platform verifier (codes "h.c.s") (1100 * second)
      ≡ accepted c)
check_token-verified_example =
    check_token-verified platform settings entry verifier (1100 * second) platform-IsStandard refl
      from_issuer for_audience signs passes
