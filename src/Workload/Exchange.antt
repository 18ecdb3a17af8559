-- ===== src/Workload/Exchange.antt =====
-- One token exchange: exchange, refusal and parseAnswer of workloadtoken/exchange.go. What the transport
-- gives is an argument, and so is json.Unmarshal of a refusal's one field.
use dev_health_go.Base.{
  ℕ, ◌*◌, Str, codes, eq_str, length, List, [], ◌∷◌, ◌++◌, Bool, false, not, ◌||◌, ◌==◌, ltb,
  Option, none, some, ◌⊎◌, inl, inr, if◌then◌else◌,
}
use dev_health_go.Base.Options.{◌>>=◌, ◌>>◌, guard}
use dev_health_go.Platform.{Platform}
use dev_health_go.Pep.Json.{lookup, as_object}
use dev_health_go.Workload.Slot.{
  Cause, exchange_refused, invalid_request, unavailable, subject_unreadable, Entry,
}
use dev_health_go.Workload.Token.{string_value, integer_value, read_text, max_lifetime, second}

abbrev pub grant_type_token_exchange : Str
grant_type_token_exchange = codes "urn:ietf:params:oauth:grant-type:token-exchange"

abbrev pub token_type_jwt : Str
token_type_jwt = codes "urn:ietf:params:oauth:token-type:jwt"

abbrev pub max_answer_bytes : ℕ
max_answer_bytes = 16 * 1024

-- `strings.Join` with a space.
unfoldable pub join : List Str → Str
join [] = []
join (s ∷ []) = s
join (s ∷ t ∷ ss) = s ++ b' ' ∷ join (t ∷ ss)

abbrev scope_field : List Str → List (Str × Str)
scope_field [] = []
scope_field (a ∷ actions) = (codes "scope", join (a ∷ actions)) ∷ []

-- The form of the request.
unfoldable pub form : Str → Str → Str → List Str → List (Str × Str)
unfolding join
form subject subject_type audience actions =
    (codes "grant_type", grant_type_token_exchange)
    ∷ (codes "subject_token", subject)
    ∷ (codes "subject_token_type", subject_type)
    ∷ (codes "audience", audience)
    ∷ scope_field actions

-- What came of sending it.
pub data Outcome : Type 0 where
  not_made timed_out not_sent unread : Outcome
  answered : ℕ → Str → Str → Outcome  -- status, Content-Type, body

module _ (p : Platform) (error_field : Str → Option Str) where
  abbrev pub is_json : Str → Bool
  is_json content_type = elim (p.media_type content_type) [
    | none ↦ false
    | some t ↦ eq_str t (codes "application/json")
  ]

  abbrev error_cause : Option Str → Cause
  error_cause none = unavailable
  error_cause (some code) =
      if eq_str code (codes "invalid_grant")
      then exchange_refused
      else if eq_str code (codes "invalid_request")
      then invalid_request
      else unavailable

  -- `refusal`
  unfoldable pub refusal : Str → Str → Cause
  refusal content_type body =
      if not (is_json content_type) then unavailable else error_cause (error_field body)

  -- `parseAnswer`: the access token and its lifetime. Each of its failures is unavailable.
  unfoldable pub parse_answer : Str → Str → Option (Str × ℕ)
  parse_answer content_type body = do
    guard (is_json content_type)
    v ← p.read body
    members ← as_object v
    access_token ← string_value (lookup (codes "access_token") members)
    token_type ← string_value (lookup (codes "token_type") members)
    issued_type ← string_value (lookup (codes "issued_token_type") members)
    guard (p.equal_fold token_type (codes "Bearer"))
    guard (eq_str issued_type token_type_jwt)
    seconds ← integer_value (lookup (codes "expires_in") members)
    guard (not (ltb seconds 1 || ltb max_lifetime seconds))
    some (access_token, seconds * second)

  module _ (issuer audience : Str) (start : ℕ) where
    -- The entry of an answer. What its text says is read when it is checked.
    abbrev pub entry_of : Str → ℕ → Entry
    entry_of token lifetime = record {
      token = token;
      claims = read_text p token issuer audience;
      sent = start;
      lifetime = lifetime;
    }

    abbrev answer_entry : Option (Str × ℕ) → Cause ⊎ Entry
    answer_entry none = inl unavailable
    answer_entry (some answer) = inr (entry_of answer.0 answer.1)

    abbrev settle : ℕ → Str → Str → Cause ⊎ Entry
    settle status content_type body =
        if ltb max_answer_bytes (length body)
        then inl unavailable
        else if status == 200
        then answer_entry (parse_answer content_type body)
        else if status == 400
        then inl (refusal content_type body)
        else inl unavailable

    abbrev land_outcome : Outcome → Cause ⊎ Entry
    land_outcome not_made = inl unavailable
    land_outcome timed_out = inl unavailable
    land_outcome not_sent = inl unavailable
    land_outcome unread = inl unavailable
    land_outcome (answered status content_type body) = settle status content_type body

    -- `exchange`: the subject as read, the transport's answer to the form, and the entry.
    unfoldable pub exchange :
        Option (Str × Str) → List Str → (List (Str × Str) → Outcome) → Cause ⊎ Entry
    unfolding form parse_answer refusal
    exchange none actions send = inl subject_unreadable
    exchange (some subject) actions send =
        land_outcome (send (form subject.0 subject.1 audience actions))
