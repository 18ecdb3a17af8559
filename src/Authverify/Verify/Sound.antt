-- ===== src/Authverify/Verify/Sound.antt =====
-- What Verify of authverify/ has checked when it accepts a token, and when it refuses it late.
use dev_health_go.Base.{
  ℕ, ◌+◌, ◌/◌, ◌≤◌, ◌<◌, ◌≡◌, ◌≢◌, ◌↔◌, refl, sym, ap, subst, inl, inr, Option-cases, Str,
  eq_str→eq, eq→eq_str, length, Bool, true, false, Option, none, some, arith,
}
use dev_health_go.Pep.Json.{contains}
use dev_health_go.Platform.{Platform}
use dev_health_go.Authverify.Verdict.{
  Verdict, accepted, refused, unavailable, Reason, issuer, audience, not_yet_valid, expired,
}
use dev_health_go.Authverify.Verifier.{
  second, public_key_size, Verifier, lookup_key, KeySource, resolver, plain, Resolved, found,
  not_held, unreadable, resolved,
}
use dev_health_go.Authverify.Class.{Class, Parsed, read_token}
use dev_health_go.Authverify.Verify.{signed, check_claims, check_signature, verify}

-- The token is signed by a key that the verifier's source holds under the token's kid.
pub record IsSigned (p : Platform) {C : Type 0} (v : Verifier) (t : Parsed C) : Type 0 where
  pub key : Str
  pub trusted : contains v.denied t.kid ≡ false
  pub held : lookup_key v.keys t.kid ≡ accepted (some key)
  pub sized : length key ≡ public_key_size
  pub verified : signed p key t.message (p.decode_strict t.signature_part) ≡ true

-- The claims name the verifier's issuer and audience, and their window, widened by the leeway, is open.
pub record IsCurrent {C : Type 0} (class : Class C) (v : Verifier) (now : ℕ) (c : C) : Type 0 where
  pub issued : class.issuer_of c ≡ v.issuer
  pub addressed : class.audience_of c ≡ v.audience
  pub begun : class.not_before_of c ≤ now / second + v.leeway
  pub not_over : now / second < class.expires_of c + v.leeway

-- The refusals that rest on the token's claims.
abbrev pub is_late : Reason → Bool
is_late issuer = true
is_late audience = true
is_late not_yet_valid = true
is_late expired = true
is_late _ = false

resolved-answers : (x : Resolved) (r : Reason) → resolved x ≢ refused r
resolved-answers (found key) r h = ground arith
resolved-answers not_held r h = ground arith
resolved-answers unreadable r h = ground arith

lookup_key-answers : (keys : KeySource) (kid : Str) (r : Reason) → lookup_key keys kid ≢ refused r
unfolding lookup_key
lookup_key-answers (resolver resolve) kid r h = resolved-answers (resolve kid) r h
lookup_key-answers (plain public_key) kid r h = ground arith

module _ (p : Platform) {C : Type 0} (class : Class C) (v : Verifier) where
  module _ (t : Parsed C) where
    held-IsSigned :
        (held : Verdict (Option Str))
        → lookup_key v.keys t.kid ≡ held
        → check_signature p class v t ≡ accepted tt
        → IsSigned p v t
    unfolding check_signature
    held-IsSigned (accepted (some key)) e h = record {
      key = key;
      trusted = ground arith;
      held = e;
      sized = ground arith;
      verified = ground arith;
    }
    held-IsSigned (accepted none) e h = absurd (ground arith)
    held-IsSigned (refused r) e h = absurd (ground arith)
    held-IsSigned unavailable e h = absurd (ground arith)

    check_signature_sound : check_signature p class v t ≡ accepted tt → IsSigned p v t
    check_signature_sound h = held-IsSigned (lookup_key v.keys t.kid) refl h

    early :
        (held : Verdict (Option Str)) (r : Reason)
        → lookup_key v.keys t.kid ≡ held
        → check_signature p class v t ≡ refused r
        → is_late r ≡ false
    unfolding check_signature
    early (accepted (some key)) r e h = ground arith
    early (accepted none) r e h = ground arith
    early (refused q) r e h = absurd (lookup_key-answers v.keys t.kid q e)
    early unavailable r e h = ground arith

    check_signature_complete : IsSigned p v t → check_signature p class v t ≡ accepted tt
    unfolding check_signature
    check_signature_complete s = ground (arith, s.trusted, s.held, s.sized, s.verified)

  module _ (claims : C) (now : ℕ) where
    check_claims_sound :
        (c : C)
        → check_claims p class v claims now ≡ accepted c
        → (claims ≡ c) × IsCurrent class v now claims
    unfolding check_claims
    check_claims_sound c h = (
      ground arith,
      record {
        issued = ground (arith, eq_str→eq (class.issuer_of claims) v.issuer);
        addressed = ground (arith, eq_str→eq (class.audience_of claims) v.audience);
        begun = ground arith;
        not_over = ground arith;
      },
    )

    check_claims_complete :
        IsCurrent class v now claims → check_claims p class v claims now ≡ accepted claims
    unfolding check_claims
    check_claims_complete c = ground (
      arith,
      eq→eq_str (class.issuer_of claims) v.issuer,
      c.issued,
      eq→eq_str (class.audience_of claims) v.audience,
      c.addressed,
      c.begun,
      c.not_over,
    )

  -- What it is for a token to be good at an instant, with these claims.
  pub record IsGood (token : Str) (now : ℕ) (c : C) : Type 0 where
    pub parsed : Parsed C
    pub shaped : read_token p class token ≡ some parsed
    pub is_signed : IsSigned p v parsed
    pub is_current : IsCurrent class v now c
    pub carried : parsed.claims ≡ c

  module _ (token : Str) (now : ℕ) where
    verify_from :
        (t : Parsed C) (checked : Verdict (Unit {0})) (c : C)
        → read_token p class token ≡ some t
        → check_signature p class v t ≡ checked
        → verify p class v token now ≡ accepted c
        → IsGood token now c
    unfolding verify
    verify_from t (accepted tt) c e s h =
        let (same, current) = check_claims_sound t.claims now c (ground arith) in
        record {
          parsed = t;
          shaped = e;
          is_signed = check_signature_sound t s;
          is_current = subst (λ k. IsCurrent class v now k) same current;
          carried = same;
        }
    verify_from t (refused r) c e s h = absurd (ground arith)
    verify_from t unavailable c e s h = absurd (ground arith)

    verify_sound : (c : C) → verify p class v token now ≡ accepted c → IsGood token now c
    unfolding verify
    verify_sound c h = elim (Option-cases (read_token p class token)) [
      | inl e ↦ absurd (ground arith)
      | inr (t, e) ↦ verify_from t (check_signature p class v t) c e refl h
    ]

    verify_complete : (c : C) → IsGood token now c → verify p class v token now ≡ accepted c
    unfolding verify
    verify_complete c g =
        let current = subst (λ k. IsCurrent class v now k) (sym g.carried) g.is_current in
        rw
          (
            g.shaped,
            check_signature_complete g.parsed g.is_signed,
            check_claims_complete g.parsed.claims now current,
          )
          (ap accepted g.carried)

    -- Verify accepts a token at an instant, and returns these claims, exactly when the token has the class's
    -- shape and carries them, it is signed by a key of 32 bytes that the source holds under a kid that is not
    -- denied, the claims name the verifier's issuer and audience, and the instant, in whole seconds, is
    -- at or after nbf less the leeway and before exp plus the leeway.
    pub verify_iff : (c : C) → (verify p class v token now ≡ accepted c) ↔ IsGood token now c
    verify_iff c = (verify_sound c, verify_complete c)

    late_from :
        (t : Parsed C) (checked : Verdict (Unit {0})) (r : Reason)
        → read_token p class token ≡ some t
        → check_signature p class v t ≡ checked
        → verify p class v token now ≡ refused r
        → is_late r ≡ true
        → (s : Parsed C) × (read_token p class token ≡ some s) × IsSigned p v s
    unfolding verify
    late_from t (accepted tt) r e s h late = (t, e, check_signature_sound t s)
    late_from t (refused q) r e s h late =
        absurd (ground (arith, early t (lookup_key v.keys t.kid) q refl s))
    late_from t unavailable r e s h late = absurd (ground arith)

    -- A token refused for its issuer, its audience or its window has the class's shape and a good signature
    -- under a trusted key: Verify judges no claim of a token that it could not authenticate.
    pub verify_late-IsSigned :
        (r : Reason)
        → is_late r ≡ true
        → verify p class v token now ≡ refused r
        → (t : Parsed C) × (read_token p class token ≡ some t) × IsSigned p v t
    unfolding verify
    verify_late-IsSigned r late h = elim (Option-cases (read_token p class token)) [
      | inl e ↦ absurd (ground arith)
      | inr (t, e) ↦ late_from t (check_signature p class v t) r e refl h late
    ]
