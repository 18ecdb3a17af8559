-- ===== src/Authverify/Verifier.antt =====
-- The verifiers and their sources of keys: NewVerifier, NewWorkloadVerifier, NewServiceAccountVerifier,
-- lookupKey and StaticKeys (authverify/accesstoken.go, workload_token.go, service_account_token.go).
-- Durations are nanoseconds, and no leeway is negative.
use dev_health_go.Base.{
  ℕ, ◌*◌, ◌/◌, ◌%◌, Str, codes, eq_str, is_empty, length, List, [], ◌∷◌, Bool, not, ◌||◌, ◌==◌, ltb,
  Option, none, some, if◌then◌else◌, is_some,
}
use dev_health_go.Pep.Json.{contains}
use dev_health_go.Authverify.Patterns.{is_issuer}
use dev_health_go.Authverify.Verdict.{Verdict, accepted, unavailable}
use dev_health_go.Authverify.Access.{scope_by_audience}
use dev_health_go.Authverify.WorkloadToken.{workload_audiences}
use dev_health_go.Authverify.ServiceAccount.{service_account_token_audience}

abbrev pub second : ℕ
second = 1_000_000_000

-- ed25519.PublicKeySize and ed25519.SignatureSize
abbrev pub public_key_size : ℕ
public_key_size = 32

abbrev pub signature_size : ℕ
signature_size = 64

-- What ResolveKey answers: the key or nil, or an error.
pub data Resolved : Type 0 where
  found : Str → Resolved
  not_held unreadable : Resolved

-- A source of keys: with the KeyResolver extension, or without.
pub data KeySource : Type 0 where
  resolver : (Str → Resolved) → KeySource
  plain : (Str → Option Str) → KeySource

abbrev pub resolved : Resolved → Verdict (Option Str)
resolved (found key) = accepted (some key)
resolved not_held = accepted none
resolved unreadable = unavailable

-- `lookupKey`
unfoldable pub lookup_key : KeySource → Str → Verdict (Option Str)
lookup_key (resolver resolve) kid = resolved (resolve kid)
lookup_key (plain public_key) kid = accepted (public_key kid)

abbrev key_at : List (Str × Str) → Str → Option Str
key_at [] kid = none
key_at ((k, key) ∷ rest) kid =
    let later = key_at rest kid in if eq_str k kid then some key else later

abbrev sized : Option Str → Option Str
sized none = none
sized (some key) = if length key == public_key_size then some key else none

-- `StaticKeys`
unfoldable pub static_keys : List (Str × Str) → KeySource
static_keys keys = plain (λ kid. sized (key_at keys kid))

pub record Verifier : Type 0 where
  pub issuer : Str
  pub audience : Str
  pub keys : KeySource
  pub denied : List Str
  pub leeway : ℕ

pub record VerifierConfig : Type 0 where
  pub issuer : Str
  pub audience : Str
  pub keys : Option KeySource
  pub denied_kids : List Str
  pub leeway : ℕ

-- What the three constructors share: the key source and the issuer, the audience, the leeway's bound.
abbrev made : VerifierConfig → (Str → Bool) → Str → ℕ → Option KeySource → Option Verifier
made cfg is_audience audience max_leeway none = none
made cfg is_audience audience max_leeway (some keys) =
    if not (is_issuer cfg.issuer)
    then none
    else if not (is_audience audience)
    then none
    else if ltb max_leeway cfg.leeway || not (cfg.leeway % second == 0)
    then none
    else some record {
      issuer = cfg.issuer;
      audience = audience;
      keys = keys;
      denied = cfg.denied_kids;
      leeway = cfg.leeway / second;
    }

abbrev pub max_leeway : ℕ
max_leeway = 60 * second

-- `NewVerifier`
unfoldable pub new_verifier : VerifierConfig → Option Verifier
new_verifier cfg = made cfg (λ a. is_some (scope_by_audience a)) cfg.audience max_leeway cfg.keys

abbrev pub max_workload_leeway : ℕ
max_workload_leeway = 30 * second

-- `NewWorkloadVerifier`
unfoldable pub new_workload_verifier : VerifierConfig → Option Verifier
new_workload_verifier cfg =
    made cfg (contains workload_audiences) cfg.audience max_workload_leeway cfg.keys

abbrev pub max_service_account_leeway : ℕ
max_service_account_leeway = 30 * second

abbrev pub service_account_verifier_audiences : List Str
service_account_verifier_audiences = codes "auth-service" ∷ codes "dev-health-api" ∷ []

-- `NewServiceAccountVerifier`
unfoldable pub new_service_account_verifier : VerifierConfig → Option Verifier
new_service_account_verifier cfg =
    let audience = if is_empty cfg.audience then service_account_token_audience else cfg.audience in
    made cfg (contains service_account_verifier_audiences) audience max_service_account_leeway
      cfg.keys
