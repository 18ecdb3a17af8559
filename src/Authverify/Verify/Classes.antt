-- ===== src/Authverify/Verify/Classes.antt =====
-- No token is of two classes: what one verifier of authverify/ accepts, the verifiers of the other classes
-- refuse.
use dev_health_go.Base.{
  ℕ, ◌≡◌, ◌≢◌, refl, Str, codes, eq_str→eq, Option, none, some, Option-cases, inl, inr, arith,
}
use dev_health_go.Base.Options.{◌>>=◌}
use dev_health_go.Pep.Json.{Members}
use dev_health_go.Platform.{Platform}
use dev_health_go.Authverify.Document.{string_member, any_text, decode_object}
use dev_health_go.Authverify.Verdict.{accepted, refused, contract}
use dev_health_go.Authverify.Verifier.{Verifier}
use dev_health_go.Authverify.Compact.{split_compact, parse_header}
use dev_health_go.Authverify.Class.{Class, Parsed, read_token}
use dev_health_go.Authverify.Verify.{verify}
use dev_health_go.Authverify.Verify.Sound.{verify_iff}

module _ (p : Platform) (ours theirs : Str) (differs : ours ≢ theirs) (raw kid : Str) where
  header_of_typ :
      (o : Members) (typ : Option Str)
      → decode_object p raw ≡ some o
      → string_member o (codes "typ") any_text ≡ typ
      → parse_header p ours raw ≡ some kid
      → parse_header p theirs raw ≡ none
  unfolding parse_header
  header_of_typ o none e read h = absurd (ground arith)
  header_of_typ o (some typ) e read h =
      ground (arith, eq_str→eq typ ours, eq_str→eq typ theirs, differs)

  parse_header-other : parse_header p ours raw ≡ some kid → parse_header p theirs raw ≡ none
  unfolding parse_header
  parse_header-other h = elim (Option-cases (decode_object p raw)) [
    | inl e ↦ absurd (ground arith)
    | inr (o, e) ↦ header_of_typ o (string_member o (codes "typ") any_text) e refl h
  ]

module _ (p : Platform) {C D : Type 0} (ours : Class C) (theirs : Class D)
    (differs : ours.token_type ≢ theirs.token_type) (token : Str) (t : Parsed C) where
  other_of_header :
      (parts : Str × Str × Str) (header : Option Str) (kid : Option Str)
      → split_compact p token ≡ some parts
      → p.decode_strict parts.0 ≡ header
      → (header >>= parse_header p ours.token_type) ≡ kid
      → read_token p ours token ≡ some t
      → read_token p theirs token ≡ none
  unfolding read_token
  other_of_header parts none kid e d k h = absurd (ground arith)
  other_of_header parts (some raw) none e d k h = absurd (ground arith)
  other_of_header parts (some raw) (some kid) e d k h =
      ground (arith, parse_header-other p ours.token_type theirs.token_type differs raw kid k)

  read_token-other : read_token p ours token ≡ some t → read_token p theirs token ≡ none
  unfolding read_token
  read_token-other h = elim (Option-cases (split_compact p token)) [
    | inl e ↦ absurd (ground arith)
    | inr (parts, e) ↦
        let header = p.decode_strict parts.0 in
        other_of_header parts header (header >>= parse_header p ours.token_type) e refl refl h
  ]

-- A token that the verifier of one class accepts breaks the contract of every class whose typ is another, and
-- is refused as such by each of its verifiers, whatever their keys, issuer, audience and instant.
pub verify-other_class :
    (p : Platform) {C D : Type 0} (ours : Class C) (theirs : Class D)
    → ours.token_type ≢ theirs.token_type
    → (v w : Verifier) (token : Str) (now later : ℕ) (c : C)
    → verify p ours v token now ≡ accepted c
    → verify p theirs w token later ≡ refused contract
unfolding verify
verify-other_class p ours theirs differs v w token now later c h =
    let good = (verify_iff p ours v token now c).0 h in
    rw (read_token-other p ours theirs differs token good.parsed good.shaped) refl
