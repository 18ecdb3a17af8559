-- ===== src/Pep/Decision/Laws.antt =====
-- What a decision and its obligations can say (pep/internal/decision/decision.go).
use dev_health_go.Base.{
  ◌≤◌, ◌≡◌, ◌≢◌, ◌↔◌, ◌⊎◌, inl, inr, refl, sym, Str, codes, eq_str, eq_str→eq, eq→eq_str,
  eq_str_iff, List, [], ◌∷◌, true, false, arith, Bool-cases, any, none,
}
use mathlib.Core.List.{Memᴰ}
use dev_health_go.RepoKey.{valid_slug}
use dev_health_go.Pep.Decision.Reasons.{allow_reason}
use dev_health_go.Pep.Decision.{
  Obligations, no_obligations, ObligationSpec, new_obligations, assurance_rank, tenant_allows,
  names_key, repository_allowed, assurance_satisfied_by, scope_organization, Decision, Wire,
  from_wire,
}

-- A decision that denies carries no obligations, and one that allows is a PDP verdict with an allow
-- reason and no cause.
pub record IsWellFormed (d : Decision) : Type 0 where
  pub reasoned : d.allowed ≡ true → (allow_reason d.reason ≡ true) × (d.err ≡ none)
  pub bare : d.allowed ≡ false → d.obligations ≡ no_obligations

pub from_wire-IsWellFormed : (w : Wire) → IsWellFormed (from_wire w)
unfolding from_wire
from_wire-IsWellFormed w = ground arith

-- A checked document becomes an allow exactly when it says allowed and its reason is an allow reason.
pub from_wire_allowed_iff :
    (w : Wire)
    → ((from_wire w).allowed ≡ true) ↔ ((w.allowed ≡ true) × (allow_reason w.reason ≡ true))
unfolding from_wire
from_wire_allowed_iff w = ground arith

any→Memᴰ :
    (key : Str) (l : List Str) → any (names_key key) l ≡ true → Memᴰ (codes "*") l ⊎ Memᴰ key l
any→Memᴰ key [] h = absurd (ground arith)
any→Memᴰ key (k ∷ l) h = elim (Bool-cases (eq_str k (codes "*"))) [
  | inl star ↦ inl (Memᴰ.head (sym (eq_str→eq k (codes "*") star)))
  | inr plain ↦ elim (Bool-cases (eq_str k key)) [
    | inl same ↦ inr (Memᴰ.head (sym (eq_str→eq k key same)))
    | inr other ↦ elim (any→Memᴰ key l (ground arith)) [
      | inl m ↦ inl (Memᴰ.tail m)
      | inr m ↦ inr (Memᴰ.tail m)
    ]
  ]
]

star→any : (key : Str) (l : List Str) → Memᴰ (codes "*") l → any (names_key key) l ≡ true
star→any key [] m = elim m [ ]
star→any key (k ∷ l) (Memᴰ.head e) = ground (arith, eq→eq_str k (codes "*") (sym e))
star→any key (k ∷ l) (Memᴰ.tail m) = ground (arith, star→any key l m)

key→any : (key : Str) (l : List Str) → Memᴰ key l → any (names_key key) l ≡ true
key→any key [] m = elim m [ ]
key→any key (k ∷ l) (Memᴰ.head e) = ground (arith, eq→eq_str k key (sym e))
key→any key (k ∷ l) (Memᴰ.tail m) = ground (arith, key→any key l m)

-- What makes a repository allowed: obligations of an allow, a canonical key, and either the whole
-- organization, the wildcard entry, or the key itself in the allowlist.
abbrev pub CoversKey : Obligations → Str → Type 0
CoversKey o key =
    (o.granted ≡ true)
    × (valid_slug key ≡ true)
    × ((o.scope ≡ scope_organization) ⊎ (Memᴰ (codes "*") o.allowlist ⊎ Memᴰ key o.allowlist))

covered :
    (o : Obligations) (key : Str)
    → (o.scope ≡ scope_organization) ⊎ (Memᴰ (codes "*") o.allowlist ⊎ Memᴰ key o.allowlist)
    → (eq_str o.scope scope_organization ≡ true) ⊎ (any (names_key key) o.allowlist ≡ true)
covered o key (inl e) = inl (eq→eq_str _ _ e)
covered o key (inr (inl m)) = inr (star→any key o.allowlist m)
covered o key (inr (inr m)) = inr (key→any key o.allowlist m)

-- RepositoryAllowed holds exactly for a canonical key that an allow's obligations cover: by the scope of
-- the whole organization, by the wildcard entry, or by the key itself in the allowlist.
pub repository_allowed_iff :
    (o : Obligations) (key : Str) → (repository_allowed o key ≡ true) ↔ CoversKey o key
unfolding repository_allowed
repository_allowed_iff o key = (to, from)
  where
    to : repository_allowed o key ≡ true → CoversKey o key
    to h = elim (Bool-cases (eq_str o.scope scope_organization)) [
      | inl e ↦ (ground arith, ground arith, inl (eq_str→eq o.scope scope_organization e))
      | inr n ↦ (ground arith, ground arith, inr (any→Memᴰ key o.allowlist (ground arith)))
    ]

    from : CoversKey o key → repository_allowed o key ≡ true
    from (g, v, c) = ground (arith, covered o key c)

-- A deny of a document grants nothing, whatever the document said: no repository, no organization and
-- no assurance level passes, and no field class is named for redaction.
pub denied_grants_nothing :
    (w : Wire) (key org level : Str)
    → (from_wire w).allowed ≡ false
    → (repository_allowed (from_wire w).obligations key ≡ false)
      × (tenant_allows (from_wire w).obligations org ≡ false)
      × (assurance_satisfied_by (from_wire w).obligations level ≡ false)
      × ((from_wire w).obligations ≡ no_obligations)
unfolding repository_allowed tenant_allows assurance_satisfied_by
denied_grants_nothing w key org level h =
    rw ((from_wire-IsWellFormed w).bare h) (refl, refl, ground arith, refl)

-- A principal that meets the minimum assurance at one level meets it at every level that ranks no lower.
pub assurance_satisfied_by_mono :
    (o : Obligations) (level higher : Str)
    → assurance_rank level ≤ assurance_rank higher
    → assurance_satisfied_by o level ≡ true
    → assurance_satisfied_by o higher ≡ true
unfolding assurance_satisfied_by
assurance_satisfied_by_mono o level higher h p = ground arith

-- The obligations of an allow without a tenant name let every non-empty organization through, and with
-- one exactly that organization.
pub tenant_allows-new_obligations :
    (s : ObligationSpec) (org : Str)
    → (tenant_allows (new_obligations s) org ≡ true)
      ↔ ((org ≢ []) × ((s.tenant ≡ []) ⊎ (s.tenant ≡ org)))
unfolding tenant_allows new_obligations
tenant_allows-new_obligations s org = ground (arith, eq_str_iff s.tenant org)
