-- ===== src/Authverify/TokenReview/Tests.antt =====
-- A review of a Kubernetes token by a server that knows one account.
use dev_health_go.Base.{
  ◌*◌, ◌≡◌, refl, Str, codes, eq_str, split, [], ◌∷◌, true, false, Option, none, some, inl, inr,
  if◌then◌else◌,
}
use dev_health_go.Platform.{Platform}
use dev_health_go.Pep.Json.{null, contains}
use dev_health_go.Authverify.Verifier.{second}
use dev_health_go.Authverify.Fetch.{Reply, responded, no_response}
use dev_health_go.Authverify.Exchange.{subject_invalid, infrastructure, SubjectIdentity}
use dev_health_go.Authverify.TokenReview.{
  Address, Request, Validator, Review, Seconds, since, url_not_https, trim_right, new_validator,
  parse_service_account_username, unverified_jwt_expiry, validate,
}
use dev_health_go.Authverify.TokenReview.Reviewed.{IsReviewed, validate-IsReviewed}

abbrev platform : Platform
platform = record {
  equal_fold = eq_str;
  trim_space = λ s. s;
  decode_strict = λ s. some s;
  decode_loose = λ s. some s;
  read = λ s. some null;
  media_type = λ s. some s;
  verify_signature = λ key message raw. true;
}

abbrev options : Validator
options = record {
  api_server_url = codes "https://k/";
  has_reviewer_token = true;
  audience = codes "auth";
  trust_domain = codes "cluster";
}

abbrev validator : Validator
validator = record options { api_server_url = codes "https://k" }

abbrev parse : Str → Option Address
parse s = some record { host = codes "k"; hostname = codes "k"; scheme = codes "https" }

made : new_validator platform parse (λ s. false) options ≡ inr validator
unfolding new_validator trim_right eq_str
made = refl

abbrev parse_plain : Str → Option Address
parse_plain s = some record { host = codes "k"; hostname = codes "k"; scheme = codes "http" }

plain_http : new_validator platform parse_plain (λ s. false) options ≡ inl url_not_https
unfolding new_validator eq_str
plain_http = refl

abbrev review : Review
review = record {
  authenticated = true;
  audiences = codes "auth" ∷ [];
  username = codes "system:serviceaccount:ns:job";
  uid = codes "u1";
}

abbrev bind : Str → Option Review
bind s = some review

abbrev bind_expiry : Str → Option Str
bind_expiry s = some s

abbrev parse_int : Str → Option Seconds
parse_int s = some (since 1000)

abbrev server : Request → Reply
server r =
    if eq_str r.url (codes "https://k/apis/authentication.k8s.io/v1/tokenreviews")
    then responded 201 (some (codes "r"))
    else no_response

abbrev identity : SubjectIdentity
identity = record {
  trust_domain = codes "cluster";
  namespace = codes "ns";
  service_account_name = codes "job";
  service_account_uid = codes "u1";
  expires_at = 1000 * second;
}

validated :
    validate platform bind_expiry parse_int bind
      (some (codes "me"))
      server
      (999 * second)
      validator
      (codes "a.b.c")
    ≡ inr identity
unfolding validate unverified_jwt_expiry parse_service_account_username split contains eq_str
validated = refl

expired :
    validate platform bind_expiry parse_int bind
      (some (codes "me"))
      server
      (1000 * second)
      validator
      (codes "a.b.c")
    ≡ inl subject_invalid
unfolding validate unverified_jwt_expiry parse_service_account_username split contains eq_str
expired = refl

without_reviewer :
    validate platform bind_expiry parse_int bind none server 0 validator (codes "a.b.c")
    ≡ inl infrastructure
unfolding validate
without_reviewer = refl

validate-IsReviewed_example :
    IsReviewed platform bind_expiry parse_int bind
      (some (codes "me"))
      server
      (999 * second)
      validator
      (codes "a.b.c")
      identity
validate-IsReviewed_example =
    validate-IsReviewed platform bind_expiry parse_int bind (some (codes "me")) server
      (999 * second) validator (codes "a.b.c") identity validated
