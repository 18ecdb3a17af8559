-- ===== src/Authverify/Exchange/Granted.antt =====
-- What an exchange gives: a scope within the binding's grant and a token within the ceiling
-- (authverify/workload_exchange.go, authverify/workload_token_exchange_service.go).
use dev_health_go.Base.{
  ℕ, ◌+◌, ◌*◌, ◌<◌, ◌≡◌, ◌≢◌, refl, sym, subst, Str, eq_str→eq, eq_str_refl, List, [], ◌∷◌, Bool,
  true, false, not, ◌&&◌, all, Option, none, some, ◌⊎◌, inl, inr, arith,
}
use dev_health_go.Platform.{Platform}
use dev_health_go.Pep.Json.{contains, distinct}
use dev_health_go.Authverify.Compact.{split_compact}
use dev_health_go.Authverify.Exchange.{
  judge_claims, check_lifetime, keep_scope, narrow_item, narrowed, remaining, Fault,
  SubjectIdentity, WorkloadBinding, IssuedToken, Result, narrow, resolve_requested_scope,
  check_issued_lifetime, token_lifetime_claims, exchange, second,
}

narrow_item-some :
    (held dup : Bool) (s : Str) (o : Option (List Str)) (out : List Str)
    → narrow_item held dup s o ≡ some out
    → (rest : List Str) × (o ≡ some rest) × (held ≡ true) × (out ≡ keep_scope dup s rest)
narrow_item-some false dup s o out h = absurd (ground arith)
narrow_item-some true dup s none out h = absurd (ground arith)
narrow_item-some true dup s (some rest) out h = (rest, refl, refl, ground arith)

-- The scopes that the loop keeps: granted, each once, and exactly the requested ones not seen before it.
record IsNarrowed (granted requested seen out : List Str) : Type 0 where
  within : all (contains granted) out ≡ true
  once : distinct out ≡ true
  exact : (x : Str) → contains out x ≡ (contains requested x && not (contains seen x))

module _ (granted : List Str) (s : Str) (requested seen rest : List Str)
    (ih : IsNarrowed granted requested (s ∷ seen) rest) where
  item-IsNarrowed :
      (dup : Bool)
      → contains seen s ≡ dup
      → contains granted s ≡ true
      → IsNarrowed granted (s ∷ requested) seen (keep_scope dup s rest)
  unfolding contains distinct
  item-IsNarrowed true e held = record {
    within = ih.within;
    once = ih.once;
    exact = λ x. ground (arith, ih.exact x, eq_str→eq s x);
  }
  item-IsNarrowed false e held = record {
    within = ground (arith, ih.within);
    once = ground (arith, ih.once, ih.exact s, eq_str_refl s);
    exact = λ x. ground (arith, ih.exact x, eq_str→eq s x);
  }

narrow-IsNarrowed :
    (granted requested seen out : List Str)
    → narrow granted seen requested ≡ some out
    → IsNarrowed granted requested seen out
unfolding narrow contains distinct
narrow-IsNarrowed granted [] seen out h = record {
  within = ground (arith, h);
  once = ground (arith, h);
  exact = λ x. ground (arith, h);
}
narrow-IsNarrowed granted (s ∷ requested) seen out h =
    let (rest, e, held, same) =
      narrow_item-some (contains granted s) (contains seen s) s
        (narrow granted (s ∷ seen) requested) out h in
    subst (IsNarrowed granted (s ∷ requested) seen) (sym same) (
      item-IsNarrowed granted s requested seen rest
        (narrow-IsNarrowed granted requested (s ∷ seen) rest e) (contains seen s) refl held)

-- The requested scopes, each granted and each once.
pub record IsSubset (granted requested scope : List Str) : Type 0 where
  pub within : all (contains granted) scope ≡ true
  pub once : distinct scope ≡ true
  pub exact : (x : Str) → contains scope x ≡ contains requested x

-- The whole grant for an empty request, and else the requested part of it.
abbrev pub IsWithinGrant : WorkloadBinding → List Str → List Str → Type 0
IsWithinGrant binding requested scope =
    ((requested ≡ []) × (scope ≡ binding.granted_scopes))
    ⊎ IsSubset binding.granted_scopes requested scope

subset :
    (granted requested scope : List Str)
    → narrow granted [] requested ≡ some scope
    → IsSubset granted requested scope
unfolding contains
subset granted requested scope h =
    let n = narrow-IsNarrowed granted requested [] scope h in
    record { within = n.within; once = n.once; exact = λ x. ground (arith, n.exact x) }

narrowed-inr : (o : Option (List Str)) (scope : List Str) → narrowed o ≡ inr scope → o ≡ some scope
narrowed-inr none scope h = absurd (ground arith)
narrowed-inr (some out) scope h = ground arith

-- ResolveRequestedScope only narrows: it gives the whole grant where nothing is requested, and else exactly the
-- requested scopes, each of them granted and none twice; a binding without scopes gives none.
pub resolve_requested_scope-IsWithinGrant :
    (binding : WorkloadBinding) (requested scope : List Str)
    → resolve_requested_scope binding requested ≡ inr scope
    → (binding.granted_scopes ≢ []) × IsWithinGrant binding requested scope
unfolding resolve_requested_scope
resolve_requested_scope-IsWithinGrant binding requested scope h =
    by_grant binding.granted_scopes requested refl h
  where
    by_grant :
        (granted asked : List Str)
        → binding.granted_scopes ≡ granted
        → resolve_requested_scope (record binding { granted_scopes = granted }) asked ≡ inr scope
        → (granted ≢ []) × (((asked ≡ []) × (scope ≡ granted)) ⊎ IsSubset granted asked scope)
    by_grant [] asked e k = absurd (ground arith)
    by_grant (g ∷ gs) [] e k = (λ n. ground (arith, n), inl (refl, ground arith))
    by_grant (g ∷ gs) (r ∷ rs) e k = (
      λ n. ground (arith, n),
      inr (subset (g ∷ gs) (r ∷ rs) scope (narrowed-inr (narrow (g ∷ gs) [] (r ∷ rs)) scope k)),
    )

-- A token whose life is known and less than a second over the ceiling; it is cut to whole seconds in a JWT.
pub record IsShortLived (issued : IssuedToken) : Type 0 where
  pub from : ℕ
  pub until : ℕ
  pub issued_at : issued.issued_at ≡ some from
  pub expires_at : issued.expires_at ≡ some until
  pub lives : from < until
  pub short : until < from + 301 * second

module _ (p : Platform) where
  judged_short :
      (dates : Option (ℕ × ℕ)) (from until : ℕ)
      → from < until
      → judge_claims dates from until ≡ none
      → until < from + 301 * second
  judged_short none from until l h = absurd (ground arith)
  judged_short (some (iat, exp)) from until l h = ground arith

  lifetime_short :
      (parts : Option (Str × Str × Str)) (from until : ℕ)
      → from < until
      → check_lifetime p parts from until ≡ none
      → until < from + 301 * second
  lifetime_short none from until l h = ground arith
  lifetime_short (some parts) from until l h =
      judged_short (token_lifetime_claims p parts.1) from until l h

  times_short :
      (token : Str) (issued expires : Option ℕ)
      → check_issued_lifetime p (record { token = token; issued_at = issued; expires_at = expires })
        ≡ none
      → IsShortLived (record { token = token; issued_at = issued; expires_at = expires })
  unfolding check_issued_lifetime
  times_short token none expires h = absurd (ground arith)
  times_short token (some from) none h = absurd (ground arith)
  times_short token (some from) (some until) h =
      let lives : from < until = ground arith in
      record {
        from = from;
        until = until;
        issued_at = refl;
        expires_at = refl;
        lives = lives;
        short = lifetime_short (split_compact p token) from until lives (ground arith);
      }

  -- A token that checkIssuedLifetime passes has both its times, expires after it was issued, and lives
  -- less than 301 seconds.
  pub check_issued_lifetime-IsShortLived :
      (issued : IssuedToken) → check_issued_lifetime p issued ≡ none → IsShortLived issued
  check_issued_lifetime-IsShortLived issued h =
      times_short issued.token issued.issued_at issued.expires_at h

module _ (p : Platform) (validate : Str → Fault ⊎ SubjectIdentity)
    (resolve : SubjectIdentity → Fault ⊎ WorkloadBinding)
    (issue : WorkloadBinding → List Str → ℕ → Fault ⊎ IssuedToken) where
  -- What stands behind a result.
  pub record IsGranted (subject_token : Str) (requested : List Str) (now : ℕ) (r : Result)
      : Type 0 where
    pub identity : SubjectIdentity
    pub binding : WorkloadBinding
    pub issued : IssuedToken
    pub validated : validate subject_token ≡ inr identity
    pub resolved : resolve identity ≡ inr binding
    pub scoped : IsWithinGrant binding requested r.scope
    pub minted : issue binding r.scope identity.expires_at ≡ inr issued
    pub carried : r.access_token ≡ issued.token
    pub short_lived : IsShortLived issued
    pub counted : r.expires_in ≡ remaining issued.expires_at now

  module _ (subject_token : Str) (requested : List Str) (now : ℕ) (r : Result) where
    from_issued :
        (identity : SubjectIdentity) (binding : WorkloadBinding) (scope : List Str)
        (x : Fault ⊎ IssuedToken)
        → validate subject_token ≡ inr identity
        → resolve identity ≡ inr binding
        → resolve_requested_scope binding requested ≡ inr scope
        → issue binding scope identity.expires_at ≡ x
        → exchange p validate resolve issue subject_token requested now ≡ inr r
        → IsGranted subject_token requested now r
    unfolding exchange
    from_issued identity binding scope (inl err) v b s i h = absurd (ground arith)
    from_issued identity binding scope (inr issued) v b s i h =
        let same : r.scope ≡ scope = ground arith in
        let within = (resolve_requested_scope-IsWithinGrant binding requested scope s).1 in
        record {
          identity = identity;
          binding = binding;
          issued = issued;
          validated = v;
          resolved = b;
          scoped = subst (IsWithinGrant binding requested) (sym same) within;
          minted = ground arith;
          carried = ground arith;
          short_lived = check_issued_lifetime-IsShortLived p issued (ground arith);
          counted = ground arith;
        }

    from_scope :
        (identity : SubjectIdentity) (binding : WorkloadBinding) (x : Fault ⊎ List Str)
        → validate subject_token ≡ inr identity
        → resolve identity ≡ inr binding
        → resolve_requested_scope binding requested ≡ x
        → exchange p validate resolve issue subject_token requested now ≡ inr r
        → IsGranted subject_token requested now r
    unfolding exchange
    from_scope identity binding (inl err) v b s h = absurd (ground arith)
    from_scope identity binding (inr scope) v b s h =
        from_issued identity binding scope (issue binding scope identity.expires_at) v b s refl h

    from_binding :
        (identity : SubjectIdentity) (x : Fault ⊎ WorkloadBinding)
        → validate subject_token ≡ inr identity
        → resolve identity ≡ x
        → exchange p validate resolve issue subject_token requested now ≡ inr r
        → IsGranted subject_token requested now r
    unfolding exchange
    from_binding identity (inl err) v b h = absurd (ground arith)
    from_binding identity (inr binding) v b h =
        from_scope identity binding (resolve_requested_scope binding requested) v b refl h

    from_identity :
        (x : Fault ⊎ SubjectIdentity)
        → validate subject_token ≡ x
        → exchange p validate resolve issue subject_token requested now ≡ inr r
        → IsGranted subject_token requested now r
    unfolding exchange
    from_identity (inl err) v h = absurd (ground arith)
    from_identity (inr identity) v h = from_binding identity (resolve identity) v refl h

    -- A token that Exchange gives was issued for the binding of the subject's validated identity, with a
    -- scope within that binding's grant; it lives less than 301 seconds, and expires_in is what is left of it.
    pub exchange-IsGranted :
        exchange p validate resolve issue subject_token requested now ≡ inr r
        → IsGranted subject_token requested now r
    exchange-IsGranted h = from_identity (validate subject_token) refl h
