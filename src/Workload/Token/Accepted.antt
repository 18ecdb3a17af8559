-- ===== src/Workload/Token/Accepted.antt =====
-- The token client and the verifier agree: what checkToken of workloadtoken/exchange.go lets through,
-- WorkloadVerifier.Verify of authverify/workload_token.go accepts.
use dev_health_go.Base.{
  ℕ, ◌*◌, ◌<◌, ◌≡◌, refl, subst, Str, codes, eq_str, eq_str→eq, split, length, List, [], ◌∷◌, Bool,
  true, false, ◌&&◌, all, in_range, cons_head, Option, none, some, Option-cases, and-true, arith,
  inl, inr,
}
use dev_health_go.Platform.{Platform}
use dev_health_go.Pep.Json.{
  distinct, Value, null, bool, number, text, array, object, Members, lookup, names, contains,
  is_present, as_object,
}
use dev_health_go.Authverify.Patterns.{is_url_char, is_issuer, is_subject, is_jti, is_kid}
use dev_health_go.Authverify.Patterns
use dev_health_go.Authverify.Document.{
  string_member, numeric_date, decode_object, any_text, scan_value,
}
use dev_health_go.Authverify.Compact.{base64_url_alphabet, header_members, parse_header}
use dev_health_go.Authverify.Access.{dates_hold}
use dev_health_go.Authverify.WorkloadToken.{
  WorkloadClaims, typ_workload_token, workload_audiences, workload_claims_members,
  workload_claims_of, workload_lifetime_ceiling, parse_workload_claims,
}
use dev_health_go.Workload.Slot.{Claims}
use dev_health_go.Workload.Token.{
  is_text, unique_object, header_holds, claims_of, texts_hold, date, integer_value, second,
  claim_members,
}
use dev_health_go.Workload.Token.Objects.{
  IsExact, FoldsSmall, plain, exact-closed_set, exact-scanned,
}
use dev_health_go.Workload.Token.Dates.{
  has_leading_zero, numeric_date-of, date-plain, IsWindow, window-IsWindow,
}

abbrev pub is_visible : ℕ → Bool
is_visible = in_range b'!' b'~'

-- What the two components rely on in the standard library.
pub record IsStandard (p : Platform) : Type 0 where
  -- strings.TrimSpace removes white space only.
  pub trims : (s : Str) → all is_visible s ≡ true → p.trim_space s ≡ s
  pub folds : FoldsSmall p
  -- encoding/json reads numbers of the JSON grammar only.
  pub numbers :
      (raw k s : Str) (o : Members)
      → p.read raw ≡ some (object o)
      → lookup k o ≡ some (number s)
      → has_leading_zero s ≡ false

cons_head-alphabet :
    (c : ℕ) (rest : List Str)
    → all base64_url_alphabet (cons_head c rest) ≡ true
    → (is_url_char c ≡ true) × (all base64_url_alphabet rest ≡ true)
cons_head-alphabet c [] h = (ground arith, refl)
cons_head-alphabet c (x ∷ xs) h = (ground arith, ground arith)

-- A text whose pieces between the dots are of the alphabet has no white space.
pub split-visible :
    (s : Str) → all base64_url_alphabet (split b'.' s) ≡ true → all is_visible s ≡ true
unfolding split
split-visible [] h = refl
split-visible (c ∷ s) h = ground (arith, split-visible s, cons_head-alphabet c (split b'.' s))

-- A member read as a string that is not empty.
text-read :
    (v : Option Value) (shape : Str → Bool)
    → shape [] ≡ false
    → is_text v shape ≡ true
    → (s : Str) × (v ≡ some (text s)) × (shape s ≡ true)
text-read none shape e h = absurd (ground arith)
text-read (some (text s)) shape e h = (s, refl, h)
text-read (some null) shape e h = absurd (ground arith)
text-read (some (bool b)) shape e h = absurd (ground arith)
text-read (some (number s)) shape e h = absurd (ground arith)
text-read (some (array xs)) shape e h = absurd (ground arith)
text-read (some (object ms)) shape e h = absurd (ground arith)

as_object-eq : (v : Value) (o : Members) → as_object v ≡ some o → v ≡ object o
as_object-eq (object ms) o h = ground arith
as_object-eq null o h = absurd (ground arith)
as_object-eq (bool b) o h = absurd (ground arith)
as_object-eq (number s) o h = absurd (ground arith)
as_object-eq (text s) o h = absurd (ground arith)
as_object-eq (array xs) o h = absurd (ground arith)

not_empty_audience : (a : Str) → contains workload_audiences a ≡ true → eq_str [] a ≡ false
unfolding contains eq_str
not_empty_audience [] h = absurd (ground arith)
not_empty_audience (c ∷ a) h = refl

not_empty_issuer : (a : Str) → is_issuer a ≡ true → eq_str [] a ≡ false
unfolding is_issuer eq_str
not_empty_issuer [] h = absurd (ground arith)
not_empty_issuer (c ∷ a) h = refl

-- The strings of the payload.
record HasTexts (issuer audience : Str) (o : Members) : Type 0 where
  sub : Str
  jti : Str
  at_aud : lookup (codes "aud") o ≡ some (text audience)
  at_kind : lookup (codes "principal_type") o ≡ some (text (codes "workload"))
  at_iss : lookup (codes "iss") o ≡ some (text issuer)
  at_sub : lookup (codes "sub") o ≡ some (text sub)
  at_jti : lookup (codes "jti") o ≡ some (text jti)
  is_sub : is_subject sub ≡ true
  is_jti : Patterns.is_jti jti ≡ true

-- A member that must be the text.
fixed_read :
    (v : Option Value) (want : Str)
    → eq_str [] want ≡ false
    → is_text v (λ s. eq_str s want) ≡ true
    → v ≡ some (text want)
fixed_read v want e h =
    let (s, at, is_want) = text-read v (λ s. eq_str s want) e h in
    subst (λ x. v ≡ some (text x)) (eq_str→eq s want is_want) at

texts_read :
    (p : Platform) (issuer audience : Str) (o : Members)
    → eq_str [] issuer ≡ false
    → eq_str [] audience ≡ false
    → texts_hold p issuer audience o ≡ true
    → HasTexts issuer audience o
unfolding is_subject is_jti eq_str
texts_read p issuer audience o issued addressed h =
    let (h4, jti_held) = and-true (holds_aud && holds_kind && holds_iss && holds_sub) holds_jti h in
    let (h3, sub_held) = and-true (holds_aud && holds_kind && holds_iss) holds_sub h4 in
    let (h2, iss_held) = and-true (holds_aud && holds_kind) holds_iss h3 in
    let (aud_held, kind_held) = and-true holds_aud holds_kind h2 in
    let (sub, at_sub, is_sub) = text-read (lookup (codes "sub") o) is_subject refl sub_held in
    let (jti, at_jti, is_jti) = text-read (lookup (codes "jti") o) Patterns.is_jti refl jti_held in
    record {
      sub = sub;
      jti = jti;
      at_aud = fixed_read (lookup (codes "aud") o) audience addressed aud_held;
      at_kind = fixed_read (lookup (codes "principal_type") o) (codes "workload") refl kind_held;
      at_iss = fixed_read (lookup (codes "iss") o) issuer issued iss_held;
      at_sub = at_sub;
      at_jti = at_jti;
      is_sub = is_sub;
      is_jti = is_jti;
    }
  where
    holds_aud : Bool
    holds_aud = is_text (lookup (codes "aud") o) (λ s. eq_str s audience)

    holds_kind : Bool
    holds_kind = is_text (lookup (codes "principal_type") o) (λ s. eq_str s (codes "workload"))

    holds_iss : Bool
    holds_iss = is_text (lookup (codes "iss") o) (λ s. eq_str s issuer)

    holds_sub : Bool
    holds_sub = is_text (lookup (codes "sub") o) is_subject

    holds_jti : Bool
    holds_jti = is_text (lookup (codes "jti") o) Patterns.is_jti

names_distinct : distinct workload_claims_members ≡ true
unfolding distinct contains eq_str
names_distinct = refl

claims_plain :
    (p : Platform) {issuer audience : Str} (o : Members) {k : Claims}
    → HasTexts issuer audience o
    → IsWindow p
        (date p (integer_value (lookup (codes "iat") o)))
        (date p (integer_value (lookup (codes "nbf") o)))
        (date p (integer_value (lookup (codes "exp") o)))
        k
    → all (λ name. plain (lookup name o)) workload_claims_members ≡ true
claims_plain p o t w =
    let iat = date-plain p (lookup (codes "iat") o) w.iat w.at_iat in
    let nbf = date-plain p (lookup (codes "nbf") o) w.nbf w.at_nbf in
    let exp = date-plain p (lookup (codes "exp") o) w.exp w.at_exp in
    rw (t.at_iss, t.at_aud, t.at_sub, t.at_kind, t.at_jti, iat, nbf, exp) refl

string_member-text :
    (o : Members) (name s : Str) (pattern : Str → Bool)
    → lookup name o ≡ some (text s)
    → pattern s ≡ true
    → string_member o name pattern ≡ some s
unfolding string_member
string_member-text o name s pattern e h = ground (arith, e, h)

-- The members that workload_claims_of reads, read.
module _ (issuer audience sub jti : Str) (iat nbf exp : ℕ) where
  abbrev the_claims : WorkloadClaims
  the_claims = record {
    issuer = issuer;
    audience = audience;
    subject = sub;
    token_id = jti;
    issued_at = iat;
    not_before = nbf;
    expires_at = exp;
  }

  workload_claims_of-members :
      (o : Members)
      → string_member o (codes "iss") is_issuer ≡ some issuer
      → string_member o (codes "aud") any_text ≡ some audience
      → string_member o (codes "sub") is_subject ≡ some sub
      → string_member o (codes "jti") is_jti ≡ some jti
      → string_member o (codes "principal_type") any_text ≡ some (codes "workload")
      → numeric_date o (codes "iat") ≡ some iat
      → numeric_date o (codes "nbf") ≡ some nbf
      → numeric_date o (codes "exp") ≡ some exp
      → contains workload_audiences audience ≡ true
      → dates_hold workload_lifetime_ceiling iat nbf exp ≡ true
      → workload_claims_of o ≡ some the_claims
  unfolding workload_claims_of eq_str
  workload_claims_of-members o at_iss at_aud at_sub at_jti at_kind at_iat at_nbf at_exp for dates =
      rw (at_iss, at_aud, at_sub, at_jti, at_kind, at_iat, at_nbf, at_exp, for, dates) refl

module _ (p : Platform) (standard : IsStandard p) where
  pub unique_object-read :
      (raw : Str) (o : Members)
      → unique_object p raw ≡ some o
      → (p.read raw ≡ some (object o)) × (distinct (names o) ≡ true)
  unfolding unique_object
  unique_object-read raw o h = elim (Option-cases (p.read raw)) [
    | inl e ↦ absurd (ground arith)
    | inr (v, e) ↦ (ground (arith, e, as_object-eq v o), ground arith)
  ]

  module _ (raw : Str) (o : Members) (read : p.read raw ≡ some (object o)) where
    decoded : scan_value p (object o) ≡ true → decode_object p raw ≡ some o
    unfolding decode_object
    decoded scanned = ground (arith, read, scanned)

    pub header_accepted :
        distinct (names o) ≡ true
        → header_holds p o ≡ true
        → (kid : Str) × (parse_header p typ_workload_token raw ≡ some kid)
    unfolding parse_header is_kid eq_str string_member distinct contains
    header_accepted once h =
        let (alg, at_alg, is_alg) =
          text-read (lookup (codes "alg") o) (λ s. eq_str s (codes "EdDSA")) refl (ground arith) in
        let (typ, at_typ, is_typ) =
          text-read (lookup (codes "typ") o) (λ s. eq_str s (codes "workload+jwt")) refl
            (ground arith) in
        let (kid, at_kid, is_kid) = text-read (lookup (codes "kid") o) is_kid refl (ground arith) in
        let exact : IsExact header_members o = record {
          once = once;
          counted = ground arith;
          complete = ground (arith, at_alg, at_typ, at_kid);
        } in
        let closed = exact-closed_set header_members refl o exact in
        let scanned =
          exact-scanned header_members refl o exact p standard.folds refl
            (ground (arith, at_alg, at_typ, at_kid)) in
        (
          kid,
          ground (arith, decoded scanned, closed, at_alg, at_typ, at_kid, is_alg, is_typ, is_kid),
        )

    module _ (issuer audience : Str) (k : Claims) where
      abbrev Dated : Type 0
      Dated =
          IsWindow p (date p (integer_value (lookup (codes "iat") o)))
            (date p (integer_value (lookup (codes "nbf") o)))
            (date p (integer_value (lookup (codes "exp") o))) k

      claims_dated : claims_of p issuer audience o ≡ inr k → Dated
      unfolding claims_of
      claims_dated h =
          window-IsWindow p (date p (integer_value (lookup (codes "iat") o)))
            (date p (integer_value (lookup (codes "nbf") o)))
            (date p (integer_value (lookup (codes "exp") o))) k (ground arith)

      dated :
          (name : Str) (n : ℕ)
          → date p (integer_value (lookup name o)) ≡ inr n
          → numeric_date o name ≡ some n
      dated name n h =
          numeric_date-of p o name (lookup name o) n refl
            (λ s e. standard.numbers raw name s o read e) h

      claims_held :
          claims_of p issuer audience o ≡ inr k
          → (length (names o) ≡ 8)
            × (all (λ name. is_present name o) claim_members ≡ true)
            × (texts_hold p issuer audience o ≡ true)
      unfolding claims_of
      claims_held h = (ground arith, ground arith, ground arith)

      window_dates :
          (w : Dated) → k.not_before < k.expires → dates_hold 300 w.iat w.nbf w.exp ≡ true
      window_dates w lasting = ground (arith, w.ordered, w.short, w.begins, w.ends)

      pub claims_accepted :
          is_issuer issuer ≡ true
          → contains workload_audiences audience ≡ true
          → distinct (names o) ≡ true
          → claims_of p issuer audience o ≡ inr k
          → k.not_before < k.expires
          → (c : WorkloadClaims) × (parse_workload_claims p raw ≡ some c)
            × (c.issuer ≡ issuer)
            × (c.audience ≡ audience)
            × (k.not_before ≡ c.not_before * second)
            × (k.expires ≡ c.expires_at * second)
      unfolding parse_workload_claims
      claims_accepted from for once h lasting =
          let w = claims_dated h in
          let (eight, present, texts) = claims_held h in
          let t =
            texts_read p issuer audience o (not_empty_issuer issuer from)
              (not_empty_audience audience for) texts in
          let exact : IsExact workload_claims_members o = record {
            once = once;
            counted = ground (arith, eight);
            complete = present;
          } in
          let closed = exact-closed_set workload_claims_members names_distinct o exact in
          let scanned =
            exact-scanned workload_claims_members names_distinct o exact p standard.folds refl
              (claims_plain p o t w) in
          let parsed =
            workload_claims_of-members issuer audience t.sub t.jti w.iat w.nbf w.exp o
              (string_member-text o (codes "iss") issuer is_issuer t.at_iss from)
              (string_member-text o (codes "aud") audience any_text t.at_aud refl)
              (string_member-text o (codes "sub") t.sub is_subject t.at_sub t.is_sub)
              (string_member-text o (codes "jti") t.jti is_jti t.at_jti t.is_jti)
              (string_member-text o (codes "principal_type") (codes "workload") any_text t.at_kind
                refl)
              (dated (codes "iat") w.iat w.at_iat) (dated (codes "nbf") w.nbf w.at_nbf)
              (dated (codes "exp") w.exp w.at_exp) for (window_dates w lasting) in
          (
            the_claims issuer audience t.sub t.jti w.iat w.nbf w.exp,
            rw (decoded scanned, closed) parsed,
            refl,
            refl,
            w.begins,
            w.ends,
          )
