-- ===== src/Pep/Decision/Reasons/Laws.antt =====
-- The closed sets of reasons (pep/decision.go, pep/internal/decision/decision.go).
use dev_health_go.Base.{
  Str, eq_str, eq_str→eq, List, [], ◌∷◌, true, false, some, All, arith, ◌≡◌, refl, Bool-cases,
  Option-cases, inl, inr, ◌↔◌, ◌≢◌, ap, sym, ◌∙◌,
}
use dev_health_go.Pep.Decision.Reasons.{
  Reason, unset, text, is_local, allow_reason, wire_reasons, accept_ahead_reasons, find_reason,
  wire_reason,
}

find_reason_sound :
    (s : Str) (P : Reason → Type 0) (ws : List Reason) (r : Reason)
    → All P ws
    → find_reason s ws ≡ some r
    → (text r ≡ s) × P r
unfolding find_reason
find_reason_sound s P [] r h e = absurd (ground arith)
find_reason_sound s P (w ∷ ws) r (p, h) e = elim (Bool-cases (eq_str (text w) s)) [
  | inl same ↦
      let found : w ≡ r = ground arith in
      (ap text (sym found) ∙ eq_str→eq (text w) s same, rw (← found) p)
  | inr other ↦ find_reason_sound s P ws r h (ground arith)
]

-- A reason that the PDP may send: none that the client makes itself, and not the empty one.
abbrev pub IsVerdict : Reason → Type 0
IsVerdict r = (is_local r ≡ false) × (r ≢ unset)

wire_reasons-IsVerdict : All IsVerdict wire_reasons
unfolding is_local
wire_reasons-IsVerdict = ground arith

accept_ahead_reasons-IsVerdict : All IsVerdict accept_ahead_reasons
unfolding is_local
accept_ahead_reasons-IsVerdict = ground arith

wire_reason_sound : (s : Str) (r : Reason) → wire_reason s ≡ some r → (text r ≡ s) × IsVerdict r
unfolding wire_reason
wire_reason_sound s r e = elim (Option-cases (find_reason s wire_reasons)) [
  | inl missed ↦
      find_reason_sound s IsVerdict accept_ahead_reasons r accept_ahead_reasons-IsVerdict
        (ground arith)
  | inr (w, found) ↦
      find_reason_sound s IsVerdict wire_reasons r wire_reasons-IsVerdict (ground arith)
]

wire_reason_complete : (r : Reason) → IsVerdict r → wire_reason (text r) ≡ some r
unfolding wire_reason is_local
wire_reason_complete unset h = absurd (h.1 refl)
wire_reason_complete _ h = ground arith

-- A reason code is read as a reason exactly when it is that reason's text and the reason is a verdict:
-- one that does not start with "pdp_" and is not empty. So no code on the wire reads as a local reason.
pub wire_reason_iff :
    (s : Str) (r : Reason) → (wire_reason s ≡ some r) ↔ ((text r ≡ s) × IsVerdict r)
wire_reason_iff s r = (wire_reason_sound s r, λ (e, v). rw (← e) (wire_reason_complete r v))

-- An allow reason is never one that the client makes itself.
pub allow_reason-IsVerdict : (r : Reason) → allow_reason r ≡ true → IsVerdict r
unfolding allow_reason is_local
allow_reason-IsVerdict unset h = absurd (ground arith)
allow_reason-IsVerdict _ h = ground arith
