-- ===== src/Pep/Wire/Sound.antt =====
-- What a decision document that is accepted says (pep/wire.go, decodeDecision).
use dev_health_go.Base.{
  ℕ, ◌<◌, ◌^◌, ◌≡◌, refl, Str, eq_str→eq, is_empty, [], ◌∷◌, true, false, not, Option, none, some,
  ltb, arith, if_cases,
}
use dev_health_go.Pep.Json.{Value, Members, no_duplicates, as_object}
use dev_health_go.Pep.Checked.{deny, Checked, ok, fail_status}
use dev_health_go.Pep.Request.{Request}
use dev_health_go.Pep.Decision.{Decision, Wire, no_obligations, same, from_wire, local}
use dev_health_go.Pep.Decision.Reasons.{allow_reason}
use dev_health_go.Pep.Expiry.{parse_revision}
use dev_health_go.Pep.Wire.Allowlist.{allowlist_of, decode_wire-allowlist}
use dev_health_go.Pep.Wire.{
  decode_decision, parse_decision, decode_object, to_decision, decode_wire, is_decision_id,
  is_principal_id,
}

-- What a decision that is the PDP's verdict says, for the request asked at `now`.
pub record IsVerdictFor (req : Request) (now : ℕ) (d : Decision) : Type 0 where
  pub agrees : d.allowed ≡ allow_reason d.reason
  pub identified : is_decision_id d.decision_id ≡ true
  pub principal : is_principal_id d.principal_id ≡ true
  pub bound : d.organization ≡ req.organization_id
  pub scoped : d.has_org ≡ not (is_empty req.organization_id)
  pub revision : d.policy_revision < 2 ^ 63
  pub fresh : d.cacheable ≡ ltb now d.expires_at
  pub bare : d.allowed ≡ false → d.obligations ≡ no_obligations
  pub listed : allowlist_of d.obligations ≡ true

is_empty→[] : (s : Str) → is_empty s ≡ true → [] ≡ s
is_empty→[] [] h = refl
is_empty→[] (c ∷ s) h = absurd (ground arith)

module _ (o : Members) (req : Request) (now : ℕ) (w : Wire) (h : decode_wire o req now ≡ ok w) where
  decode_wire-identified : is_decision_id w.decision_id ≡ true
  unfolding decode_wire
  decode_wire-identified = ground arith

  decode_wire-principal : is_principal_id w.principal_id ≡ true
  unfolding decode_wire
  decode_wire-principal = ground arith

  decode_wire-agrees : same w.allowed (allow_reason w.reason) ≡ true
  unfolding decode_wire
  decode_wire-agrees = ground arith

  decode_wire-bound : w.organization ≡ req.organization_id
  unfolding decode_wire
  decode_wire-bound =
      ground (arith, eq_str→eq w.organization req.organization_id, is_empty→[] req.organization_id)

  decode_wire-scoped : w.has_org ≡ not (is_empty req.organization_id)
  unfolding decode_wire
  decode_wire-scoped = ground arith

  decode_wire-revision : w.policy_revision < 2 ^ 63
  unfolding decode_wire parse_revision
  decode_wire-revision = ground arith

  decode_wire-fresh : w.cacheable ≡ ltb now w.expires_at
  unfolding decode_wire
  decode_wire-fresh = ground arith

  from_wire-IsVerdictFor : IsVerdictFor req now (from_wire w)
  unfolding from_wire
  from_wire-IsVerdictFor =
      let agrees = decode_wire-agrees in
      let identified = decode_wire-identified in
      let principal = decode_wire-principal in
      let bound = decode_wire-bound in
      let scoped = decode_wire-scoped in
      let revision = decode_wire-revision in
      let fresh = decode_wire-fresh in
      let listed = decode_wire-allowlist o req now w h in ground arith

decode_decision-IsVerdictFor :
    (o : Members) (req : Request) (now : ℕ) (x : Checked Wire)
    → decode_wire o req now ≡ x
    → (to_decision x).err ≡ none
    → IsVerdictFor req now (to_decision x)
unfolding deny local
decode_decision-IsVerdictFor o req now (ok w) h e = from_wire-IsVerdictFor o req now w h
decode_decision-IsVerdictFor o req now (fail_status r n) h e = absurd (ground arith)

-- An answer without a local cause is the PDP's verdict for this very request: verdict and reason
-- agree, it has a decision id and a principal id in their forms, it is bound to the organization
-- asked for, its revision is below 2^63, it may be cached exactly when it has not expired yet, a
-- deny grants nothing, and an allowlist holds at most 256 canonical keys, all different.
pub parse_decision-IsVerdictFor :
    (body : Option Value) (req : Request) (now : ℕ)
    → (parse_decision body req now).err ≡ none
    → IsVerdictFor req now (parse_decision body req now)
unfolding parse_decision decode_decision deny local
parse_decision-IsVerdictFor none req now h = absurd (ground arith)
parse_decision-IsVerdictFor (some v) req now h =
    if_cases (λ d. d.err ≡ none → IsVerdictFor req now d) (not (no_duplicates v))
      (λ _ e. absurd (ground arith)) (λ _. of_object (as_object v)) h
  where
    of_object :
        (x : Option Members)
        → (decode_object x req now).err ≡ none
        → IsVerdictFor req now (decode_object x req now)
    of_object none e = absurd (ground arith)
    of_object (some o) e = decode_decision-IsVerdictFor o req now (decode_wire o req now) refl e

pub parse_decision-uncaused :
    (body : Option Value) (req : Request) (now : ℕ)
    → (parse_decision body req now).allowed ≡ true
    → (parse_decision body req now).err ≡ none
unfolding parse_decision decode_decision deny local from_wire
parse_decision-uncaused body req now h = ground arith
