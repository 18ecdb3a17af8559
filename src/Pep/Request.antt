-- ===== src/Pep/Request.antt =====
-- pep/request.go: a question to the PDP, its validity, and the document that carries it. A compiled
-- pattern is a recogniser over the bytes.
pub mod Mint
use dev_health_go.Base.{
  ℕ, suc, zero, ◌+◌, ◌%◌, ◌≤◌, Str, codes, eq_str, is_empty, split, length, List, [], ◌∷◌, ◌++◌,
  map, Bool, true, false, not, ◌&&◌, ◌||◌, ◌==◌, leb, all, is_lower, is_upper, is_digit,
  if◌then◌else◌, get_elem?, Option, none, some,
}
use dev_health_go.RepoKey
use dev_health_go.Pep.Json.{
  Value, text, object, array, Members, end, member, Items, nil, item, contains,
}

abbrev pub max_batch : ℕ
max_batch = 100

pub record Request : Type 0 where
  pub principal_reference : Str
  pub action : Str
  pub resource_type : Str
  pub resource_key : Str
  pub organization_id : Str
  pub request_id : Str

-- [A-Za-z0-9_-]
abbrev pub is_token_char : ℕ → Bool
is_token_char c = is_upper c || is_lower c || is_digit c || c == b'_' || c == b'-'

-- ^[A-Za-z0-9._~-]{16,1000}$
unfoldable pub is_principal_reference : Str → Bool
is_principal_reference s =
    leb 16 (length s)
    && leb (length s) 1000
    && all (λ c. is_token_char c || c == b'.' || c == b'~') s

-- [a-z][a-z0-9_]*
abbrev pub is_action_part : Str → Bool
is_action_part [] = false
is_action_part (c ∷ s) = is_lower c && all (λ d. is_lower d || is_digit d || d == b'_') s

-- ^[a-z][a-z0-9_]*(\.[a-z][a-z0-9_]*)+$
unfoldable pub is_action : Str → Bool
unfolding split
is_action s = leb 2 (length (split b'.' s)) && all is_action_part (split b'.' s)

-- ^req_[A-Za-z0-9_-]{26}$
unfoldable pub is_request_id : Str → Bool
unfolding eq_str
is_request_id (a ∷ b ∷ c ∷ d ∷ s) =
    eq_str (a ∷ b ∷ c ∷ d ∷ []) (codes "req_") && length s == 26 && all is_token_char s
is_request_id _ = false

-- [a-z0-9._:-]
abbrev pub is_key_char : ℕ → Bool
is_key_char c = is_lower c || is_digit c || c == b'.' || c == b'_' || c == b':' || c == b'-'

-- ^[a-z0-9][a-z0-9._:-]{0,255}$
unfoldable pub is_other_key : Str → Bool
is_other_key [] = false
is_other_key (c ∷ s) = (is_lower c || is_digit c) && leb (length s) 255 && all is_key_char s

abbrev pub resource_types : List Str
resource_types =
    codes "organization"
    ∷ codes "repository"
    ∷ codes "membership"
    ∷ codes "service_account"
    ∷ codes "grant"
    ∷ codes "credential"
    ∷ codes "session"
    ∷ codes "signing_key"
    ∷ codes "subscription"
    ∷ codes "platform"
    ∷ []

abbrev pub client_services : List Str
client_services =
    codes "dev-health-ops-api"
    ∷ codes "dev-health-ops-billing-edge"
    ∷ codes "dev-health-web"
    ∷ codes "dev-health-acr-api"
    ∷ codes "dev-health-acr-mcp"
    ∷ codes "dev-health-query-api"
    ∷ codes "dev-health-auth-service"
    ∷ []

-- `Request.valid`
unfoldable pub valid : Request → Bool
valid r =
    if not (is_principal_reference r.principal_reference)
      || not (is_action r.action)
      || not (contains resource_types r.resource_type)
    then false
    else if (if eq_str r.resource_type (codes "repository")
        then not (RepoKey.valid r.resource_key)
        else not (is_other_key r.resource_key))
    then false
    else is_empty r.request_id || is_request_id r.request_id

abbrev pub request_id_alphabet : Str
request_id_alphabet = codes "ABCDEFGHIJKLMNOPQRSTUVWXYZabcdefghijklmnopqrstuvwxyz0123456789_-"

abbrev at : Str → ℕ → ℕ
at [] i = 0
at (c ∷ s) zero = c
at (c ∷ s) (suc i) = at s i

-- `mintRequestID` on the 26 random bytes that crypto/rand gives; `b & 63` is `b % 64`.
unfoldable pub mint_request_id : Str → Str
mint_request_id raw = codes "req_" ++ map (λ b. at request_id_alphabet (b % 64)) raw

-- `wire` and the JSON of it: the members in the order of the struct's fields, `organization_id` left out
-- when empty. `raw` are the random bytes that a minted id would take.
unfoldable pub wire : Str → Str → Request → Value
wire service raw r = object (
    member (codes "schema_version") (text (codes "authorization_request.v1")) (
      member (codes "principal_reference") (text r.principal_reference) (
        member (codes "action") (text r.action) (
          member (codes "resource")
            (object (
              member (codes "type") (text r.resource_type) (
                if is_empty r.organization_id
                then member (codes "key") (text r.resource_key) end
                else member (codes "organization_id") (text r.organization_id)
                    (member (codes "key") (text r.resource_key) end))))
            (member (codes "context")
              (object (
                member (codes "request_id")
                  (text (if is_empty r.request_id then mint_request_id raw else r.request_id))
                  (member (codes "client_service") (text service) end)))
              end)))))

-- The random bytes of each request stand beside it.
pub wire_items : Str → List (Str × Request) → Items
wire_items service [] = nil
wire_items service ((raw, r) ∷ rs) = item (wire service raw r) (wire_items service rs)

-- `batchBody`
unfoldable pub batch_body : Str → List (Str × Request) → Value
unfolding wire_items
batch_body service rs = object (
    member (codes "schema_version") (text (codes "authorization_batch_request.v1"))
      (member (codes "requests") (array (wire_items service rs)) end))
