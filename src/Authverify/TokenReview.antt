-- ===== src/Authverify/TokenReview.antt =====
-- The review of Kubernetes tokens (authverify/k8s_token_review.go): NewKubernetesTokenReviewValidator and
-- Validate. net/url, the struct binding of encoding/json and strconv are arguments, and so are the source of
-- the reviewer's token and what the API server answers. The clock reads nanoseconds since 1970.
pub mod Reviewed
mod Tests
use dev_health_go.Base.{
  ℕ, ◌+◌, ◌*◌, ◌^◌, Str, codes, eq_str, is_empty, split, length, List, [], ◌∷◌, ◌++◌, Bool, true,
  false, not, ◌||◌, ◌&&◌, ◌==◌, ltb, leb, Option, none, some, ◌⊎◌, inl, inr, if◌then◌else◌,
}
use dev_health_go.Platform.{Platform}
use dev_health_go.Pep.Json.{Value, text, array, object, item, nil, member, end, contains}
use dev_health_go.Authverify.Verifier.{second}
use dev_health_go.Authverify.Fetch.{Reply, no_response, responded}
use dev_health_go.Authverify.Exchange.{
  Fault, subject_invalid, infrastructure, SubjectIdentity, ◌>>=◌, ◌>>◌,
}

abbrev pub token_review_path : Str
token_review_path = codes "/apis/authentication.k8s.io/v1/tokenreviews"

abbrev pub max_response_bytes : ℕ
max_response_bytes = 65536

-- What a URL reads as: `url.Parse`.
pub record Address : Type 0 where
  pub host : Str
  pub hostname : Str
  pub scheme : Str

-- Both the options and the validator made of them: New only cuts the URL.
pub record Validator : Type 0 where
  pub api_server_url : Str
  pub has_reviewer_token : Bool
  pub audience : Str
  pub trust_domain : Str

pub data OptionFault : Type 0 where
  url_required url_malformed url_not_https : OptionFault
  reviewer_token_required audience_required trust_domain_required : OptionFault

-- `strings.TrimRight` with a slash.
unfoldable pub trim_right : Str → Str
trim_right [] = []
trim_right (c ∷ s) = let rest = trim_right s in if c == b'/' && is_empty rest then [] else c ∷ rest

abbrev pub refuse : Bool → OptionFault → OptionFault ⊎ Validator → OptionFault ⊎ Validator
refuse true err next = inl err
refuse false err next = next

module _ (p : Platform) (parse : Str → Option Address) (is_loopback_ip : Str → Bool) where
  abbrev pub blank : Str → Bool
  blank s = is_empty (p.trim_space s)

  abbrev pub is_loopback : Address → Bool
  is_loopback url = eq_str url.hostname (codes "localhost") || is_loopback_ip url.hostname

  abbrev pub configured : Validator → Option Address → OptionFault ⊎ Validator
  configured options none = inl url_malformed
  configured options (some url) = refuse (is_empty url.host) url_malformed (
      refuse (not (eq_str url.scheme (codes "https")) && not (is_loopback url)) url_not_https (
        refuse (not options.has_reviewer_token) reviewer_token_required (
          refuse (blank options.audience) audience_required (
            refuse (blank options.trust_domain) trust_domain_required
              (inr (record options { api_server_url = trim_right options.api_server_url }))))))

  -- `NewKubernetesTokenReviewValidator`
  unfoldable pub new_validator : Validator → OptionFault ⊎ Validator
  new_validator options =
      refuse (blank options.api_server_url) url_required
        (configured options (parse options.api_server_url))

pub record Request : Type 0 where
  pub method : Str
  pub url : Str
  pub content_type : Str
  pub authorization : Str
  pub document : Value

-- `tokenReviewResponse`
pub record Review : Type 0 where
  pub authenticated : Bool
  pub audiences : List Str
  pub username : Str
  pub uid : Str

-- What `strconv.ParseInt` gives: an int64.
pub data Seconds : Type 0 where
  since before : ℕ → Seconds

abbrev pub review_document : Str → Str → Value
review_document token audience = object (
    member (codes "apiVersion") (text (codes "authentication.k8s.io/v1")) (
      member (codes "kind") (text (codes "TokenReview")) (
        member (codes "spec")
          (object (
            member (codes "token") (text token)
              (member (codes "audiences") (array (item (text audience) nil)) end)))
          end)))

abbrev pub request_for : Validator → Str → Str → Request
request_for v reviewer subject = record {
  method = codes "POST";
  url = v.api_server_url ++ token_review_path;
  content_type = codes "application/json";
  authorization = codes "Bearer " ++ reviewer;
  document = review_document subject v.audience;
}

abbrev pub or_fault {ℓ} : {A : Type ℓ} → Fault → Option A → Fault ⊎ A
or_fault err none = inl err
or_fault err (some a) = inr a

abbrev pub unless : Bool → Fault → Option Fault
unless true err = none
unless false err = some err

abbrev pub whole_body : Reply → Option Str
whole_body no_response = none
whole_body (responded status none) = none
whole_body (responded status (some body)) =
    if leb (length body) max_response_bytes && (status == 201 || status == 200)
    then some body
    else none

abbrev pub account_of : List Str → Option (Str × Str)
account_of (a ∷ b ∷ namespace ∷ name ∷ []) =
    if eq_str a (codes "system")
      && eq_str b (codes "serviceaccount")
      && not (is_empty namespace)
      && not (is_empty name)
    then some (namespace, name)
    else none
account_of _ = none

-- `parseServiceAccountUsername`
unfoldable pub parse_service_account_username : Str → Option (Str × Str)
unfolding split
parse_service_account_username username = account_of (split b':' username)

abbrev pub middle : List Str → Option Str
middle (a ∷ b ∷ c ∷ []) = some b
middle _ = none

-- An expiry after now, in nanoseconds. `time.Unix` counts from year 1 in an int64, which wraps to the past.
abbrev pub live_until : Seconds → ℕ → Option ℕ
live_until (before n) now = none
live_until (since n) now =
    if ltb (n + 62135596800) (2 ^ 63) && ltb now (n * second) then some (n * second) else none

module _ (p : Platform) (bind_expiry : Str → Option Str) (parse_int : Str → Option Seconds) where
  -- `unverifiedJWTExpiry`
  unfoldable pub unverified_jwt_expiry : Str → Fault ⊎ Seconds
  unfolding split
  unverified_jwt_expiry token = do
    part ← or_fault subject_invalid (middle (split b'.' token))
    payload ← or_fault subject_invalid (p.decode_loose part)
    exp ← or_fault subject_invalid (bind_expiry payload)
    or_fault subject_invalid (parse_int exp)

  module _ (bind : Str → Option Review) (reviewer_token : Option Str) (send : Request → Reply)
      (now : ℕ) where
    -- `Validate`; the faults that are not of the token are one.
    unfoldable pub validate : Validator → Str → Fault ⊎ SubjectIdentity
    unfolding unverified_jwt_expiry parse_service_account_username
    validate v subject_token = do
      unless (not (is_empty (p.trim_space subject_token))) subject_invalid
      reviewer ← or_fault infrastructure reviewer_token
      unless (not (is_empty (p.trim_space reviewer))) infrastructure
      body ← or_fault infrastructure (whole_body (send (request_for v reviewer subject_token)))
      review ← or_fault infrastructure (bind body)
      unless review.authenticated subject_invalid
      unless (contains review.audiences v.audience) subject_invalid
      account ← or_fault subject_invalid (parse_service_account_username review.username)
      unless (not (is_empty (p.trim_space review.uid))) subject_invalid
      seconds ← unverified_jwt_expiry subject_token
      expires ← or_fault subject_invalid (live_until seconds now)
      inr record {
        trust_domain = v.trust_domain;
        namespace = account.0;
        service_account_name = account.1;
        service_account_uid = review.uid;
        expires_at = expires;
      }
