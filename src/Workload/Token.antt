-- ===== src/Workload/Token.antt =====
-- The reading of a workload token's text, without its signature, by the client that will send it:
-- compactJWS, uniqueObject, workloadTokenShape and tokenClaims of workloadtoken/exchange.go, and the
-- part of checkToken that calls them.
pub mod Objects
pub mod Dates
pub mod Accepted
pub mod Verified
mod Tests
use dev_health_go.Base.{
  ℕ, ◌+◌, ◌-◌, ◌*◌, ◌^◌, Str, codes, eq_str, is_empty, is_digit, split, length, List, [], ◌∷◌, Bool,
  true, false, not, ◌&&◌, ◌||◌, ◌==◌, ltb, leb, all, Option, none, some, ◌⊎◌, inl, inr,
  if◌then◌else◌, is_some,
}
use dev_health_go.Base.Options.{◌>>=◌, ◌>>◌, guard}
use dev_health_go.Platform.{Platform}
use dev_health_go.Pep.Json.{
  Value, null, number, text, object, Members, end, member, lookup, names, contains, distinct,
  is_present, as_object,
}
use dev_health_go.Pep.Expiry.{value_from}
use dev_health_go.Authverify.Patterns.{is_url_char, is_kid, is_subject, is_jti}
use dev_health_go.Authverify.Compact.{three}
use dev_health_go.Workload.Slot.{
  Cause, not_a_token, payload_unreadable, claims_shape, not_an_integer, dates_broken, Claims,
}

-- The length of an Ed25519 signature.
abbrev pub signature_size : ℕ
signature_size = 64

abbrev pub max_access_token_bytes : ℕ
max_access_token_bytes = 8 * 1024

-- MaxLifetime, in seconds.
abbrev pub max_lifetime : ℕ
max_lifetime = 300

abbrev pub max_numeric_date : ℕ
max_numeric_date = 253_402_300_799

abbrev pub second : ℕ
second = 1_000_000_000

-- The members of a JWT's header that the token must have.
abbrev pub header_names : List Str
header_names = codes "alg" ∷ codes "typ" ∷ codes "kid" ∷ []

abbrev pub claim_members : List Str
claim_members =
    codes "iss"
    ∷ codes "aud"
    ∷ codes "sub"
    ∷ codes "principal_type"
    ∷ codes "jti"
    ∷ codes "iat"
    ∷ codes "nbf"
    ∷ codes "exp"
    ∷ []

-- `json.Unmarshal` into a string: null leaves it empty.
abbrev pub string_value : Option Value → Option Str
string_value (some (text s)) = some s
string_value (some null) = some []
string_value _ = none

-- Digits as an int64.
abbrev pub digits_value : Str → Option ℕ
digits_value s =
    if not (is_empty s) && all is_digit s && ltb (value_from 0 s) (2 ^ 63)
    then some (value_from 0 s)
    else none

-- `strconv.ParseInt` of a number's text. One that starts with a minus sign is at most 0, and stands as 0
-- here: the callers refuse whatever is below 1.
unfoldable pub parse_int : Str → Option ℕ
unfolding value_from
parse_int [] = none
parse_int (c ∷ s) =
    if c == b'-'
    then if not (is_empty s) && all is_digit s && leb (value_from 0 s) (2 ^ 63)
      then some 0
      else none
    else digits_value (c ∷ s)

-- A number's text is all that ParseInt can read of a value.
abbrev pub integer_value : Option Value → Option ℕ
integer_value (some (number s)) = parse_int s
integer_value _ = none

abbrev pub is_text : Option Value → (Str → Bool) → Bool
is_text v shape = elim (string_value v) [ none ↦ false | some s ↦ shape s ]

module _ (p : Platform) where
  abbrev pub unique : Option Members → Option Members
  unique none = none
  unique (some o) = if distinct (names o) then some o else none

  -- `uniqueObject`
  unfoldable pub unique_object : Str → Option Members
  unique_object raw = unique (p.read raw >>= as_object)

  abbrev pub is_segment : Str → Bool
  is_segment s = not (is_empty s) && all is_url_char s && is_some (p.decode_loose s)

  -- `compactJWS`
  unfoldable pub compact_jws : Str → Bool
  unfolding split
  compact_jws value = is_some (three (split b'.' value)) && all is_segment (split b'.' value)

  -- The header's three strings.
  abbrev pub header_holds : Members → Bool
  header_holds o =
      length (names o) == 3
      && is_text (lookup (codes "alg") o) (λ s. eq_str s (codes "EdDSA"))
      && is_text (lookup (codes "typ") o) (λ s. eq_str s (codes "workload+jwt"))
      && is_text (lookup (codes "kid") o) is_kid

  -- `workloadTokenShape`
  unfoldable pub workload_token_shape : Str → Bool
  unfolding compact_jws unique_object
  workload_token_shape token = is_some do
    guard (compact_jws token)
    parts ← three (split b'.' token)
    raw ← p.decode_strict parts.0
    o ← unique_object raw
    guard (header_holds o)
    signature ← p.decode_strict parts.2
    guard (length signature == signature_size)

  -- The dates, in seconds, in the order in which they are read.
  abbrev pub date : Option ℕ → Cause ⊎ ℕ
  date none = inl not_an_integer
  date (some n) = if ltb n 1 || ltb max_numeric_date n then inl dates_broken else inr n

  abbrev pub window : Cause ⊎ ℕ → Cause ⊎ ℕ → Cause ⊎ ℕ → Cause ⊎ Claims
  window (inl err) nbf exp = inl err
  window (inr iat) (inl err) exp = inl err
  window (inr iat) (inr nbf) (inl err) = inl err
  window (inr iat) (inr nbf) (inr exp) =
      if ltb nbf iat || ltb max_lifetime (exp - iat)
      then inl dates_broken
      else inr record { not_before = nbf * second; expires = exp * second }

  abbrev pub texts_hold : Str → Str → Members → Bool
  texts_hold issuer audience o =
      is_text (lookup (codes "aud") o) (λ s. eq_str s audience)
      && is_text (lookup (codes "principal_type") o) (λ s. eq_str s (codes "workload"))
      && is_text (lookup (codes "iss") o) (λ s. eq_str s issuer)
      && is_text (lookup (codes "sub") o) is_subject
      && is_text (lookup (codes "jti") o) is_jti

  -- The claims of the payload's object.
  unfoldable pub claims_of : Str → Str → Members → Cause ⊎ Claims
  claims_of issuer audience o =
      if not (length (names o) == 8 && all (λ k. is_present k o) claim_members)
      then inl claims_shape
      else if not (texts_hold issuer audience o)
      then inl claims_shape
      else window (date (integer_value (lookup (codes "iat") o)))
          (date (integer_value (lookup (codes "nbf") o)))
          (date (integer_value (lookup (codes "exp") o)))

  abbrev pub claims_from : Str → Str → Option Members → Cause ⊎ Claims
  claims_from issuer audience none = inl claims_shape
  claims_from issuer audience (some o) = claims_of issuer audience o

  abbrev pub payload_claims : Str → Str → Option Str → Cause ⊎ Claims
  payload_claims issuer audience none = inl payload_unreadable
  payload_claims issuer audience (some raw) = claims_from issuer audience (unique_object raw)

  -- `tokenClaims`, of a token in three parts.
  unfoldable pub token_claims : Str → Str → Str → Cause ⊎ Claims
  unfolding split claims_of
  token_claims token issuer audience =
      payload_claims issuer audience (three (split b'.' token) >>= λ parts. p.decode_strict parts.1)

  -- What `checkToken` reads of the token's text, before it looks at the clock.
  unfoldable pub read_text : Str → Str → Str → Cause ⊎ Claims
  unfolding workload_token_shape token_claims
  read_text token issuer audience =
      if ltb max_access_token_bytes (length token) || not (workload_token_shape token)
      then inl not_a_token
      else token_claims token issuer audience
