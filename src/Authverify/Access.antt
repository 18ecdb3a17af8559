-- ===== src/Authverify/Access.antt =====
-- The claims of an access token: AccessClaims and parseAccessClaims of authverify/accesstoken.go and
-- authverify/accesstoken_wire.go.
use dev_health_go.Base.{
  ℕ, ◌*◌, ◌-◌, Str, codes, eq_str, List, [], ◌∷◌, Bool, false, not, ◌||◌, ltb, leb, Option, none,
  some, if◌then◌else◌,
}
use dev_health_go.Base.Options.{◌>>=◌, ◌>>◌, guard}
use dev_health_go.Pep.Json.{Members, lookup, as_object}
use dev_health_go.Platform.{Platform}
use dev_health_go.Authverify.Patterns.{is_issuer, is_subject, is_session, is_jti, is_org_id}
use dev_health_go.Authverify.Document.{
  closed_set, string_member, any_text, numeric_date, decode_object,
}

pub record AccessClaims : Type 0 where
  pub issuer : Str
  pub audience : Str
  pub subject : Str
  pub session_id : Str
  pub token_id : Str
  pub scope : Str
  pub org_id : Option Str
  pub actor_subject : Option Str
  pub issued_at : ℕ
  pub not_before : ℕ
  pub expires_at : ℕ

abbrev pub typ_access_token : Str
typ_access_token = codes "at+jwt"

abbrev pub lifetime_ceiling : ℕ
lifetime_ceiling = 60 * 60

abbrev scopes : List (Str × Str)
scopes =
    (codes "dev-health-api", codes "api:access")
    ∷ (codes "auth-service", codes "auth:session")
    ∷ (codes "acr-api", codes "acr:api")
    ∷ (codes "acr-mcp", codes "acr:mcp")
    ∷ []

abbrev scope_of : List (Str × Str) → Str → Option Str
scope_of [] audience = none
scope_of ((a, s) ∷ rest) audience =
    let later = scope_of rest audience in if eq_str a audience then some s else later

-- `scopeByAudience`
unfoldable pub scope_by_audience : Str → Option Str
scope_by_audience audience = scope_of scopes audience

abbrev claims_required : List Str
claims_required =
    codes "iss"
    ∷ codes "aud"
    ∷ codes "sub"
    ∷ codes "principal_type"
    ∷ codes "sid"
    ∷ codes "jti"
    ∷ codes "iat"
    ∷ codes "nbf"
    ∷ codes "exp"
    ∷ codes "scope"
    ∷ []

abbrev claims_members : List Str
claims_members = codes "org_id" ∷ codes "act" ∷ claims_required

abbrev act_members : List Str
act_members = codes "sub" ∷ []

-- The optional members: `some none` where the member is absent.
unfoldable pub org_id_of : Members → Option (Option Str)
org_id_of o = elim (lookup (codes "org_id") o) [
  | none ↦ some none
  | some v ↦ do org ← string_member o (codes "org_id") is_org_id; some (some org)
]

unfoldable pub actor_of : Members → Option (Option Str)
actor_of o = elim (lookup (codes "act") o) [
  | none ↦ some none
  | some v ↦ do
    act ← as_object v
    guard (closed_set act act_members act_members)
    actor ← string_member act (codes "sub") is_subject
    some (some actor)
]

-- iat <= nbf < exp, and exp - iat at most the ceiling.
abbrev pub dates_hold : ℕ → ℕ → ℕ → ℕ → Bool
dates_hold ceiling iat nbf exp = not (ltb nbf iat || leb exp nbf || ltb ceiling (exp - iat))

abbrev pub is_scope_of : Option Str → Str → Bool
is_scope_of none scope = false
is_scope_of (some s) scope = eq_str scope s

module _ (p : Platform) where
  -- `parseAccessClaims`
  unfoldable pub parse_access_claims : Str → Option AccessClaims
  unfolding decode_object
  parse_access_claims raw = do
    o ← decode_object p raw
    guard (closed_set o claims_members claims_required)
    iss ← string_member o (codes "iss") is_issuer
    aud ← string_member o (codes "aud") any_text
    sub ← string_member o (codes "sub") is_subject
    sid ← string_member o (codes "sid") is_session
    jti ← string_member o (codes "jti") is_jti
    scope ← string_member o (codes "scope") any_text
    guard (is_scope_of (scope_by_audience aud) scope)
    kind ← string_member o (codes "principal_type") any_text
    guard (eq_str kind (codes "human"))
    org ← org_id_of o
    actor ← actor_of o
    iat ← numeric_date o (codes "iat")
    nbf ← numeric_date o (codes "nbf")
    exp ← numeric_date o (codes "exp")
    guard (dates_hold lifetime_ceiling iat nbf exp)
    some record {
      issuer = iss;
      audience = aud;
      subject = sub;
      session_id = sid;
      token_id = jti;
      scope = scope;
      org_id = org;
      actor_subject = actor;
      issued_at = iat;
      not_before = nbf;
      expires_at = exp;
    }
