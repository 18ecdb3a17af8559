-- ===== src/Pep/Json/Strict.antt =====
-- The strict reading accepts exactly the documents that nest at most 16 deep and repeat no member name
-- (pep/strict.go).
use dev_health_go.Base.{
  ℕ, suc, ◌+◌, ◌≤◌, ◌≡◌, ◌≢◌, ◌↔◌, refl, Str, eq_str_iff, List, [], ◌∷◌, true, false, not, ◌&&◌,
  leb, max, arith, All, All-pointwise, and-true, leb→le,
}
use dev_health_go.Pep.Json.{
  Value, null, bool, number, text, array, object, Items, nil, item, Members, end, member, contains,
  walk, walk_items, walk_members, no_duplicates, names, max_depth,
}

-- How many arrays and objects stand around the innermost value.
mutual
  pub nesting : Value → ℕ
  nesting null = 0
  nesting (bool b) = 0
  nesting (number s) = 0
  nesting (text s) = 0
  nesting (array xs) = nesting_items xs
  nesting (object ms) = nesting_members ms

  pub nesting_items : Items → ℕ
  nesting_items nil = 0
  nesting_items (item x xs) = max (suc (nesting x)) (nesting_items xs)

  pub nesting_members : Members → ℕ
  nesting_members end = 0
  nesting_members (member k v ms) = max (suc (nesting v)) (nesting_members ms)

abbrev pub Differs : Str → Str → Type 0
Differs a b = a ≢ b

-- No object at any depth repeats a name.
unfoldable mutual
  pub IsUnambiguous : Value → Type 0
  IsUnambiguous null = Unit {0}
  IsUnambiguous (bool b) = Unit {0}
  IsUnambiguous (number s) = Unit {0}
  IsUnambiguous (text s) = Unit {0}
  IsUnambiguous (array xs) = IsUnambiguousItems xs
  IsUnambiguous (object ms) = IsUnambiguousMembers ms

  pub IsUnambiguousItems : Items → Type 0
  IsUnambiguousItems nil = Unit {0}
  IsUnambiguousItems (item x xs) = IsUnambiguous x × IsUnambiguousItems xs

  pub IsUnambiguousMembers : Members → Type 0
  IsUnambiguousMembers end = Unit {0}
  IsUnambiguousMembers (member k v ms) =
      All (Differs k) (names ms) × IsUnambiguous v × IsUnambiguousMembers ms

-- No name of the members is among those seen.
abbrev AreNew : List Str → List Str → Type 0
AreNew seen ks = All (λ k. contains seen k ≡ false) ks

AreNew-nil : (ks : List Str) → AreNew [] ks
unfolding contains
AreNew-nil ks = All-pointwise (λ k. contains [] k ≡ false) (λ k. refl) ks

AreNew-cons :
    (k : Str) (seen ks : List Str) → AreNew seen ks → All (Differs k) ks → AreNew (k ∷ seen) ks
unfolding contains
AreNew-cons k seen [] h d = tt
AreNew-cons k seen (j ∷ ks) (h, hs) (d, ds) =
    (ground (arith, eq_str_iff k j), AreNew-cons k seen ks hs ds)

AreNew-uncons :
    (k : Str) (seen ks : List Str) → AreNew (k ∷ seen) ks → AreNew seen ks × All (Differs k) ks
unfolding contains
AreNew-uncons k seen [] h = (tt, tt)
AreNew-uncons k seen (j ∷ ks) (h, hs) =
    let (a, b) = AreNew-uncons k seen ks hs in
    ((ground arith, a), (λ e. ground (arith, eq_str_iff k j), b))

mutual
  unfolding walk nesting IsUnambiguous

  walk_complete :
      (v : Value) (d : ℕ) → nesting v + d ≤ max_depth → IsUnambiguous v → walk v d ≡ true
  walk_complete null d h u = ground arith
  walk_complete (bool b) d h u = ground arith
  walk_complete (number s) d h u = ground arith
  walk_complete (text s) d h u = ground arith
  walk_complete (array xs) d h u = ground (arith, walk_items_complete xs d h u)
  walk_complete (object ms) d h u =
      ground (arith, walk_members_complete ms [] d h u (AreNew-nil (names ms)))

  walk_items_complete :
      (xs : Items) (d : ℕ)
      → nesting_items xs + d ≤ max_depth
      → IsUnambiguousItems xs
      → walk_items xs d ≡ true
  walk_items_complete nil d h u = refl
  walk_items_complete (item x xs) d h u =
      rw (walk_complete x (d + 1) (omega arith) u.0) (walk_items_complete xs d (omega arith) u.1)

  walk_members_complete :
      (ms : Members) (seen : List Str) (d : ℕ)
      → nesting_members ms + d ≤ max_depth
      → IsUnambiguousMembers ms
      → AreNew seen (names ms)
      → walk_members ms seen d ≡ true
  walk_members_complete end seen d h u n = refl
  walk_members_complete (member k v ms) seen d h u n =
      rw (n.0, walk_complete v (d + 1) (omega arith) u.1)
        (walk_members_complete ms (k ∷ seen) d (omega arith) u.2
          (AreNew-cons k seen (names ms) n.1 u.0))

mutual
  unfolding walk nesting IsUnambiguous

  walk_sound : (v : Value) (d : ℕ) → walk v d ≡ true → (nesting v + d ≤ max_depth) × IsUnambiguous v
  walk_sound null d h = (ground arith, tt)
  walk_sound (bool b) d h = (ground arith, tt)
  walk_sound (number s) d h = (ground arith, tt)
  walk_sound (text s) d h = (ground arith, tt)
  walk_sound (array xs) d h =
      let (here, inside) = and-true (leb d max_depth) (walk_items xs d) h in
      walk_items_sound xs d (leb→le d max_depth here) inside
  walk_sound (object ms) d h =
      let (here, inside) = and-true (leb d max_depth) (walk_members ms [] d) h in
      let (a, b, c) = walk_members_sound ms [] d (leb→le d max_depth here) inside in (a, b)

  walk_items_sound :
      (xs : Items) (d : ℕ)
      → d ≤ max_depth
      → walk_items xs d ≡ true
      → (nesting_items xs + d ≤ max_depth) × IsUnambiguousItems xs
  walk_items_sound nil d le h = (omega arith, tt)
  walk_items_sound (item x xs) d le h =
      let (here, later) = and-true (walk x (d + 1)) (walk_items xs d) h in
      let one = walk_sound x (d + 1) here in
      let rest = walk_items_sound xs d le later in (omega (arith, one.0, rest.0), (one.1, rest.1))

  walk_members_sound :
      (ms : Members) (seen : List Str) (d : ℕ)
      → d ≤ max_depth
      → walk_members ms seen d ≡ true
      → (nesting_members ms + d ≤ max_depth) × IsUnambiguousMembers ms × AreNew seen (names ms)
  walk_members_sound end seen d le h = (omega arith, tt, tt)
  walk_members_sound (member k v ms) seen d le h =
      let (new, inside) =
        and-true (not (contains seen k)) (walk v (d + 1) && walk_members ms (k ∷ seen) d) h in
      let (here, later) = and-true (walk v (d + 1)) (walk_members ms (k ∷ seen) d) inside in
      let one = walk_sound v (d + 1) here in
      let rest = walk_members_sound ms (k ∷ seen) d le later in
      let (fresh, distinct) = AreNew-uncons k seen (names ms) rest.2 in
      (omega (arith, one.0, rest.0), (distinct, one.1, rest.1), (ground arith, fresh))

-- The strict reading accepts a document exactly when it nests at most 16 arrays and objects around
-- any value and no object at any depth repeats a member name.
pub no_duplicates_iff :
    (v : Value) → (no_duplicates v ≡ true) ↔ ((nesting v ≤ max_depth) × IsUnambiguous v)
unfolding no_duplicates
no_duplicates_iff v = (
  λ h. let (a, b) = walk_sound v 0 h in (omega (arith, a), b),
  λ (n, u). walk_complete v 0 (omega arith) u,
)
