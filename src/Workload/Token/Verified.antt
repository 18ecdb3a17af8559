-- ===== src/Workload/Token/Verified.antt =====
-- The token client and the verifier agree: a token that checkToken of workloadtoken/exchange.go lets
-- through is one that WorkloadVerifier.Verify of authverify/workload_token.go accepts.
use dev_health_go.Base.{
  ℕ, ◌*◌, ◌≤◌, ◌<◌, ◌≡◌, refl, sym, ◌∙◌, Str, eq→eq_str, split, length, List, [], ◌∷◌, ◌++◌, true,
  leb, all, Option, none, some, is_some, Option-cases, and-true, arith, ◌⊎◌, inl, inr,
}
use dev_health_go.Platform.{Platform}
use dev_health_go.Pep.Json.{Members, contains}
use dev_health_go.Authverify.Patterns.{is_issuer}
use dev_health_go.Authverify.Compact.{base64_url_alphabet, split_compact, three}
use dev_health_go.Authverify.WorkloadToken.{WorkloadClaims, workload_audiences}
use dev_health_go.Authverify.Class.{Parsed, read_token, workload}
use dev_health_go.Authverify.Verdict.{accepted}
use dev_health_go.Authverify.Verifier.{Verifier}
use dev_health_go.Authverify.Verify.{verify_workload}
use dev_health_go.Authverify.Verify.Sound.{IsSigned, IsGood, verify_iff}
use dev_health_go.Workload.Slot.{Cause, Claims, Entry, Settings, check_token}
use dev_health_go.Workload.Token.{
  is_segment, unique_object, compact_jws, header_holds, workload_token_shape, claims_of,
  token_claims, read_text, second,
}
use dev_health_go.Workload.Token.Accepted.{
  IsStandard, split-visible, unique_object-read, header_accepted, claims_accepted,
}

-- The two documents of a token that the client has read.
record HasDocuments (p : Platform) (token issuer audience : Str) (k : Claims) : Type 0 where
  header_part : Str
  payload_part : Str
  signature_part : Str
  header_raw : Str
  payload_raw : Str
  header : Members
  payload : Members
  small : leb (length token) 8192 ≡ true
  in_parts : three (split b'.' token) ≡ some (header_part, payload_part, signature_part)
  segments : all (is_segment p) (split b'.' token) ≡ true
  header_decoded : p.decode_strict header_part ≡ some header_raw
  payload_decoded : p.decode_strict payload_part ≡ some payload_raw
  header_unique : unique_object p header_raw ≡ some header
  payload_unique : unique_object p payload_raw ≡ some payload
  header_good : header_holds p header ≡ true
  payload_good : claims_of p issuer audience payload ≡ inr k

segments-alphabet :
    (p : Platform) (parts : List Str)
    → all (is_segment p) parts ≡ true
    → all base64_url_alphabet parts ≡ true
segments-alphabet p [] h = refl
segments-alphabet p (s ∷ ss) h = ground (arith, segments-alphabet p ss)

module _ (p : Platform) (token issuer audience : Str) (k : Claims)
    (read : read_text p token issuer audience ≡ inr k) where
  read_header :
      (parts : Str × Str × Str) (raw : Option Str)
      → three (split b'.' token) ≡ some parts
      → p.decode_strict parts.0 ≡ raw
      → (h : Str) × (o : Members) × (p.decode_strict parts.0 ≡ some h)
        × (unique_object p h ≡ some o)
        × (header_holds p o ≡ true)
  unfolding read_text workload_token_shape
  read_header parts none e d = absurd (ground arith)
  read_header parts (some h) e d = elim (Option-cases (unique_object p h)) [
    | inl u ↦ absurd (ground arith)
    | inr (o, u) ↦ (h, o, d, u, ground arith)
  ]

  read_payload :
      (parts : Str × Str × Str) (raw : Option Str)
      → three (split b'.' token) ≡ some parts
      → p.decode_strict parts.1 ≡ raw
      → (h : Str) × (o : Members) × (p.decode_strict parts.1 ≡ some h)
        × (unique_object p h ≡ some o)
        × (claims_of p issuer audience o ≡ inr k)
  unfolding read_text token_claims
  read_payload parts none e d = absurd (ground arith)
  read_payload parts (some h) e d = elim (Option-cases (unique_object p h)) [
    | inl u ↦ absurd (ground arith)
    | inr (o, u) ↦ (h, o, d, u, ground arith)
  ]

  read_small : leb (length token) 8192 ≡ true
  unfolding read_text
  read_small = ground arith

  read_compact : compact_jws p token ≡ true
  unfolding read_text workload_token_shape
  read_compact = ground arith

  read_segments : all (is_segment p) (split b'.' token) ≡ true
  unfolding compact_jws
  read_segments =
      (and-true (is_some (three (split b'.' token))) (all (is_segment p) (split b'.' token))
        read_compact).1

  read_parts :
      (parts : Option (Str × Str × Str))
      → three (split b'.' token) ≡ parts
      → HasDocuments p token issuer audience k
  unfolding read_text workload_token_shape
  read_parts none e = absurd (ground arith)
  read_parts (some parts) e =
      let (header_raw, header, hd, hu, hg) = read_header parts (p.decode_strict parts.0) e refl in
      let (payload_raw, payload, pd, pu, pg) =
        read_payload parts (p.decode_strict parts.1) e refl in
      record {
        header_part = parts.0;
        payload_part = parts.1;
        signature_part = parts.2;
        header_raw = header_raw;
        payload_raw = payload_raw;
        header = header;
        payload = payload;
        small = read_small;
        in_parts = e;
        segments = read_segments;
        header_decoded = hd;
        payload_decoded = pd;
        header_unique = hu;
        payload_unique = pu;
        header_good = hg;
        payload_good = pg;
      }

  has_documents : HasDocuments p token issuer audience k
  has_documents = read_parts (three (split b'.' token)) refl

-- An entry that the check passes: its text is read, and the instant is in its window.
module _ (s : Settings) (e : Entry) (now : ℕ) (passed : check_token s e now ≡ none) where
  checked_from :
      (x : Cause ⊎ Claims)
      → e.claims ≡ x
      → (k : Claims) × (e.claims ≡ inr k) × (k.not_before ≤ now) × (now < k.expires)
  unfolding check_token
  checked_from (inl err) at = absurd (ground arith)
  checked_from (inr k) at = (k, at, ground arith, ground arith)

  checked : (k : Claims) × (e.claims ≡ inr k) × (k.not_before ≤ now) × (now < k.expires)
  checked = checked_from e.claims refl

module _ (p : Platform) (standard : IsStandard p) (token issuer audience : Str) (k : Claims) where
  split_accepted :
      (d : HasDocuments p token issuer audience k)
      → split_compact p token ≡ some (d.header_part, d.payload_part, d.signature_part)
  unfolding split_compact
  split_accepted d =
      let alphabet = segments-alphabet p (split b'.' token) d.segments in
      let same =
        eq→eq_str (p.trim_space token) token
          (standard.trims token (split-visible token alphabet)) in
      rw (d.small, same, d.in_parts, alphabet) refl

  token_accepted :
      is_issuer issuer ≡ true
      → contains workload_audiences audience ≡ true
      → k.not_before < k.expires
      → HasDocuments p token issuer audience k
      → (t : Parsed WorkloadClaims) × (read_token p (workload p) token ≡ some t)
        × (t.claims.issuer ≡ issuer)
        × (t.claims.audience ≡ audience)
        × (k.not_before ≡ t.claims.not_before * second)
        × (k.expires ≡ t.claims.expires_at * second)
  unfolding read_token
  token_accepted from for lasting d =
      let (read_h, once_h) = unique_object-read p standard d.header_raw d.header d.header_unique in
      let (read_c, once_c) =
        unique_object-read p standard d.payload_raw d.payload d.payload_unique in
      let (kid, at_kid) =
        header_accepted p standard d.header_raw d.header read_h once_h d.header_good in
      let (c, at_c, issued, addressed, begins, ends) =
        claims_accepted p standard d.payload_raw d.payload read_c issuer audience k from for once_c
          d.payload_good lasting in
      (
        record {
          message = d.header_part ++ b'.' ∷ d.payload_part;
          signature_part = d.signature_part;
          kid = kid;
          claims = c;
        },
        rw (split_accepted d, d.header_decoded, d.payload_decoded, at_kid, at_c) refl,
        issued,
        addressed,
        begins,
        ends,
      )

-- A token whose text the client has read, for an issuer of the right form and a workload audience, and that
-- the client's check lets through at an instant, is accepted at that instant by a workload verifier of that
-- issuer and audience, of any leeway, under whose trusted keys it is signed; the standard library does as documented.
pub check_token-verified :
    (p : Platform) (s : Settings) (e : Entry) (v : Verifier) (now : ℕ)
    → IsStandard p
    → e.claims ≡ read_text p e.token v.issuer v.audience
    → is_issuer v.issuer ≡ true
    → contains workload_audiences v.audience ≡ true
    → ((t : Parsed WorkloadClaims) → read_token p (workload p) e.token ≡ some t → IsSigned p v t)
    → check_token s e now ≡ none
    → (c : WorkloadClaims) × (verify_workload p v e.token now ≡ accepted c)
unfolding verify_workload
check_token-verified p s e v now standard reading from for signs passed =
    let (k, at, begun, not_over) = checked s e now passed in
    let documents = has_documents p e.token v.issuer v.audience k (sym reading ∙ at) in
    let (t, shaped, issued, addressed, begins, ends) =
      token_accepted p standard e.token v.issuer v.audience k from for
        (omega (arith, begun, not_over)) documents in
    let good : IsGood p (workload p) v e.token now t.claims = record {
      parsed = t;
      shaped = shaped;
      is_signed = signs t shaped;
      is_current = record {
        issued = issued;
        addressed = addressed;
        begun = omega (arith, begins, begun);
        not_over = omega (arith, ends, not_over);
      };
      carried = refl;
    } in
    (t.claims, (verify_iff p (workload p) v e.token now t.claims).1 good)
