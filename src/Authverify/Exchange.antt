-- ===== src/Authverify/Exchange.antt =====
-- The workload token exchange: ResolveRequestedScope (authverify/workload_exchange.go), Exchange,
-- checkIssuedLifetime and tokenLifetimeClaims (authverify/workload_token_exchange_service.go). The
-- validator, the resolver and the issuer are arguments. Instants are nanoseconds since 1970.
pub mod Granted
mod Tests
use dev_health_go.Base.{
  ℕ, ◌-◌, ◌*◌, ◌/◌, Str, codes, List, [], ◌∷◌, Bool, true, false, not, ◌||◌, ◌&&◌, ◌==◌, ltb, leb,
  Option, none, some, ◌⊎◌, inl, inr, if◌then◌else◌,
}
use dev_health_go.Base.Options
use dev_health_go.Platform.{Platform}
use dev_health_go.Pep.Json.{contains}
use dev_health_go.Authverify.Document.{numeric_date, decode_object}
use dev_health_go.Authverify.Compact.{split_compact}
use dev_health_go.Authverify.Verifier.{second}

pub data Fault : Type 0 where
  subject_invalid binding_not_found scope_not_granted : Fault
  exceeds_ceiling lifetime_unknown lifetime_mismatch infrastructure : Fault

infixl 5 ◌>>=◌ ◌>>◌
abbrev pub ◌>>=◌ : {A B : Type 0} → Fault ⊎ A → (A → Fault ⊎ B) → Fault ⊎ B
inl err >>= next = inl err
inr a >>= next = next a

abbrev pub ◌>>◌ : {B : Type 0} → Option Fault → Fault ⊎ B → Fault ⊎ B
none >> k = k
some err >> k = inl err

-- WorkloadTokenLifetimeCeiling
abbrev pub ceiling : ℕ
ceiling = 300 * second

pub record SubjectIdentity : Type 0 where
  pub trust_domain : Str
  pub namespace : Str
  pub service_account_name : Str
  pub service_account_uid : Str
  pub expires_at : ℕ

pub record WorkloadBinding : Type 0 where
  pub binding_id : Str
  pub org_id : Str
  pub granted_scopes : List Str
  pub repository_scopes : List Str

pub record IssuedToken : Type 0 where
  pub token : Str
  pub issued_at : Option ℕ
  pub expires_at : Option ℕ

abbrev pub keep_scope : Bool → Str → List Str → List Str
keep_scope true s rest = rest
keep_scope false s rest = s ∷ rest

abbrev pub narrow_item : Bool → Bool → Str → Option (List Str) → Option (List Str)
narrow_item false dup s rest = none
narrow_item true dup s none = none
narrow_item true dup s (some rest) = some (keep_scope dup s rest)

-- The loop over the requested scopes, with those seen as a set.
unfoldable pub narrow : List Str → List Str → List Str → Option (List Str)
narrow granted seen [] = some []
narrow granted seen (s ∷ requested) =
    narrow_item (contains granted s) (contains seen s) s (narrow granted (s ∷ seen) requested)

abbrev pub narrowed : Option (List Str) → Fault ⊎ List Str
narrowed none = inl scope_not_granted
narrowed (some scope) = inr scope

-- `ResolveRequestedScope`
unfoldable pub resolve_requested_scope : WorkloadBinding → List Str → Fault ⊎ List Str
unfolding narrow
resolve_requested_scope binding requested = elim binding.granted_scopes as (λ g. Fault ⊎ List Str) [
  | [] ↦ inl binding_not_found
  | g ∷ gs ↦ elim requested as (λ r. Fault ⊎ List Str) [
    | [] ↦ inr (g ∷ gs)
    | r ∷ rs ↦ narrowed (narrow (g ∷ gs) [] (r ∷ rs))
  ]
]

abbrev ordered : ℕ → ℕ → Option (ℕ × ℕ)
ordered iat exp = if leb exp iat then none else some (iat, exp)

abbrev both : Option ℕ → Option ℕ → Option (ℕ × ℕ)
both none exp = none
both (some iat) none = none
both (some iat) (some exp) = ordered iat exp

abbrev pub judge_claims : Option (ℕ × ℕ) → ℕ → ℕ → Option Fault
judge_claims none issued expires = some lifetime_unknown
judge_claims (some dates) issued expires =
    if ltb 300 (dates.1 - dates.0)
    then some exceeds_ceiling
    else if not (dates.0 == issued / second) || not (dates.1 == expires / second)
    then some lifetime_mismatch
    else none

module _ (p : Platform) where
  -- `tokenLifetimeClaims`
  unfoldable pub token_lifetime_claims : Str → Option (ℕ × ℕ)
  unfolding decode_object
  token_lifetime_claims payload_part =
      Options.◌>>=◌ (Options.◌>>=◌ (p.decode_strict payload_part) (decode_object p))
        (λ o. both (numeric_date o (codes "iat")) (numeric_date o (codes "exp")))

  abbrev pub check_lifetime : Option (Str × Str × Str) → ℕ → ℕ → Option Fault
  check_lifetime none issued expires =
      if ltb ceiling (expires - issued) then some exceeds_ceiling else none
  check_lifetime (some parts) issued expires =
      judge_claims (token_lifetime_claims parts.1) issued expires

  abbrev pub check_times : Str → Option ℕ → Option ℕ → Option Fault
  check_times token none expires = some lifetime_unknown
  check_times token (some issued) none = some lifetime_unknown
  check_times token (some issued) (some expires) =
      if not (ltb issued expires)
      then some lifetime_unknown
      else check_lifetime (split_compact p token) issued expires

  -- `checkIssuedLifetime`
  unfoldable pub check_issued_lifetime : IssuedToken → Option Fault
  unfolding token_lifetime_claims
  check_issued_lifetime issued = check_times issued.token issued.issued_at issued.expires_at

-- WorkloadTokenExchangeResult
pub record Result : Type 0 where
  pub access_token : Str
  pub expires_in : ℕ
  pub scope : List Str

-- The whole seconds from now to the expiry, 0 where it has passed.
abbrev pub remaining : Option ℕ → ℕ → ℕ
remaining none now = 0
remaining (some expires) now = (expires - now) / second

module _ (p : Platform) (validate : Str → Fault ⊎ SubjectIdentity)
    (resolve : SubjectIdentity → Fault ⊎ WorkloadBinding)
    (issue : WorkloadBinding → List Str → ℕ → Fault ⊎ IssuedToken) where
  -- `Exchange`, with the clock's reading after the token is issued.
  unfoldable pub exchange : Str → List Str → ℕ → Fault ⊎ Result
  unfolding resolve_requested_scope check_issued_lifetime
  exchange subject_token requested_scope now = do
    identity ← validate subject_token
    binding ← resolve identity
    scope ← resolve_requested_scope binding requested_scope
    issued ← issue binding scope identity.expires_at
    check_issued_lifetime p issued
    inr record {
      access_token = issued.token;
      expires_in = remaining issued.expires_at now;
      scope = scope;
    }
