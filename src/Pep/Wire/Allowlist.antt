-- ===== src/Pep/Wire/Allowlist.antt =====
-- The repository allowlist that a decision document grants (pep/wire.go, decodeObligations).
use dev_health_go.Base.{
  inl, inr, ℕ, ◌+◌, ◌≡◌, refl, length, length-append, leb, Str, codes, eq_str, List, [], ◌∷◌, ◌++◌,
  Bool, true, false, not, ◌&&◌, ◌||◌, Option, none, some, arith, Option-cases,
}
use dev_health_go.RepoKey
use dev_health_go.RepoKey.{valid_slug}
use dev_health_go.Pep.Json.{Value, Members, lookup, contains, as_string, as_array, as_object}
use dev_health_go.Pep.Checked.{
  Checked, ok, fail_status, require, ◌>>=◌, ◌>>◌, some_or_fail, >>=-eq-ok, require->>-eq-ok,
}
use dev_health_go.Pep.Request.{Request}
use dev_health_go.Pep.Decision.{Wire, Obligations, new_obligations}
use dev_health_go.Pep.Decision.Reasons.{malformed}
use dev_health_go.Pep.Wire.{
  allowlist_from, decode_allowlist, decode_spec, decode_obligations, decode_wire, obligations_of,
  max_repository_allowlist,
}

-- No two elements are the same text.
abbrev pub distinct : List Str → Bool
distinct [] = true
distinct (s ∷ l) = not (contains l s) && distinct l

abbrev pub all_valid : List Str → Bool
all_valid [] = true
all_valid (s ∷ l) = RepoKey.valid s && all_valid l

abbrev allowlist_ok : Checked (Option (List Str)) → Bool
allowlist_ok (ok (some l)) = all_valid l && distinct l && leb (length l) max_repository_allowlist
allowlist_ok _ = true

all_valid-append :
    (l : List Str) (s : Str)
    → RepoKey.valid s ≡ true
    → all_valid l ≡ true
    → all_valid (l ++ s ∷ []) ≡ true
all_valid-append [] s v h = ground arith
all_valid-append (t ∷ l) s v h = ground (arith, all_valid-append l s v)

eq_str_sym : (s t : Str) → eq_str s t ≡ eq_str t s
unfolding eq_str
eq_str_sym [] [] = refl
eq_str_sym [] (y ∷ ys) = refl
eq_str_sym (x ∷ xs) [] = refl
eq_str_sym (x ∷ xs) (y ∷ ys) = ground (arith, eq_str_sym xs ys)

contains-append :
    (l : List Str) (s t : Str) → contains (l ++ s ∷ []) t ≡ (contains l t || eq_str s t)
unfolding contains
contains-append [] s t = ground arith
contains-append (u ∷ l) s t = ground (arith, contains-append l s t)

distinct-append :
    (l : List Str) (s : Str)
    → contains l s ≡ false
    → distinct l ≡ true
    → distinct (l ++ s ∷ []) ≡ true
unfolding contains
distinct-append [] s v h = ground arith
distinct-append (t ∷ l) s v h =
    ground (arith, eq_str_sym s t, contains-append l s t, distinct-append l s)

-- What the loop over the allowlist's items keeps of what it has appended.
allowlist_from-keeps :
    (done : List Str) (vs : List Value) (l : List Str)
    → all_valid done ≡ true
    → distinct done ≡ true
    → allowlist_from done vs ≡ ok l
    → (all_valid l ≡ true) × (distinct l ≡ true) × (length l ≡ length done + length vs)
unfolding allowlist_from
allowlist_from-keeps done [] l a d h = (ground arith, ground arith, ground arith)
allowlist_from-keeps done (v ∷ vs) l a d h =
    let (s, read, h1) = >>=-eq-ok (some_or_fail (as_string v) malformed) _ h in
    let (new, h2) = require->>-eq-ok (RepoKey.valid s && not (contains done s)) malformed _ h1 in
    let (all_ok, apart, n) =
      allowlist_from-keeps (done ++ s ∷ []) vs l (all_valid-append done s (ground arith) a)
        (distinct-append done s (ground arith) d) h2 in
    (all_ok, apart, omega (arith, n, length-append done (s ∷ [])))

from_items :
    (items : List Value) (x : Checked (List Str))
    → allowlist_from [] items ≡ x
    → allowlist_ok (
        require (leb (length items) max_repository_allowlist) malformed
        >> (x >>= λ keys. ok (some keys)))
      ≡ true
from_items items (fail_status r n) h = ground arith
from_items items (ok l) h =
    let (a, d, n) = allowlist_from-keeps [] items l refl refl h in ground arith

from_array :
    (x : Option (List Value))
    → allowlist_ok (
        some_or_fail x malformed >>= λ items.
        require (leb (length items) max_repository_allowlist) malformed
        >> (allowlist_from [] items >>= λ keys. ok (some keys)))
      ≡ true
from_array none = refl
from_array (some items) = from_items items (allowlist_from [] items) refl

decode_allowlist_ok : (o : Members) → allowlist_ok (decode_allowlist o) ≡ true
unfolding decode_allowlist
decode_allowlist_ok o = elim (Option-cases (lookup (codes "repository_allowlist") o)) [
  | inl missing ↦ ground arith
  | inr (v, found) ↦ ground (arith, from_array (as_array v))
]

-- The allowlist of obligations: canonical keys, all different, 256 of them at most.
abbrev pub allowlist_of : Obligations → Bool
allowlist_of o =
    all_valid o.allowlist
    && distinct o.allowlist
    && leb (length o.allowlist) max_repository_allowlist

pub decode_spec-allowlist :
    (raw : Value) (os : Obligations) → decode_obligations raw ≡ ok os → allowlist_of os ≡ true
unfolding decode_spec decode_obligations new_obligations
decode_spec-allowlist raw os h = elim (Option-cases (as_object raw)) [
  | inl bad ↦ absurd (ground arith)
  | inr (o, found) ↦ ground (arith, decode_allowlist_ok o)
]

abbrev obligations_ok : Checked Obligations → Bool
obligations_ok (ok os) = allowlist_of os
obligations_ok (fail_status r n) = true

decode_obligations_ok :
    (raw : Value) (x : Checked Obligations) → decode_obligations raw ≡ x → obligations_ok x ≡ true
decode_obligations_ok raw (ok os) h = decode_spec-allowlist raw os h
decode_obligations_ok raw (fail_status r n) h = refl

obligations_of_ok :
    (x : Option Value) (allowed : Bool) → obligations_ok (obligations_of x allowed) ≡ true
unfolding new_obligations
obligations_of_ok none allowed = ground arith
obligations_of_ok (some raw) false = refl
obligations_of_ok (some raw) true = decode_obligations_ok raw (decode_obligations raw) refl

pub decode_wire-allowlist :
    (o : Members) (req : Request) (now : ℕ) (w : Wire)
    → decode_wire o req now ≡ ok w
    → allowlist_of w.obligations ≡ true
unfolding decode_wire
decode_wire-allowlist o req now w h =
    let granting = obligations_of_ok (lookup (codes "obligations") o) true in
    let denying = obligations_of_ok (lookup (codes "obligations") o) false in ground arith
