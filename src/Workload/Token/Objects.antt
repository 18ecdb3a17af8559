-- ===== src/Workload/Token/Objects.antt =====
-- Objects with exactly the members of a list: the reading by uniqueObject of workloadtoken/exchange.go
-- and the one by decodeObject and closedSet of authverify/accesstoken_wire.go agree on them.
use dev_health_go.Base.{
  ℕ, suc, ◌≤◌, ◌≡◌, refl, subst, Str, eq_str, eq_str→eq, eq_str_refl, length, List, [], ◌∷◌, Bool,
  true, false, not, ◌||◌, all, is_lower, Option, none, some, if◌then◌else◌, arith, and-true,
  Bool-cases, inl, inr, ◌==◌,
}
use dev_health_go.Pep.Json.{
  distinct, Value, null, bool, number, text, array, object, Members, end, member, lookup, names,
  contains, is_present,
}
use dev_health_go.Platform.{Platform}
use dev_health_go.Authverify.Document.{scan_value, scan_members, folds_into, closed_set}

-- The list without the first of its elements that equals the text.
drop_one : Str → List Str → List Str
drop_one k [] = []
drop_one k (j ∷ js) = let rest = drop_one k js in if eq_str j k then js else j ∷ rest

length-drop_one :
    (k : Str) (ys : List Str) → contains ys k ≡ true → length ys ≡ suc (length (drop_one k ys))
unfolding contains drop_one
length-drop_one k [] h = absurd (ground arith)
length-drop_one k (j ∷ js) h = ground (arith, length-drop_one k js)

contains-drop_one :
    (k j : Str) (ys : List Str)
    → eq_str k j ≡ false
    → contains ys j ≡ true
    → contains (drop_one k ys) j ≡ true
unfolding contains drop_one
contains-drop_one k j [] d h = h
contains-drop_one k j (y ∷ ys) d h = ground (arith, contains-drop_one k j ys d, eq_str→eq y k)

all-drop_one :
    (k : Str) (xs ys : List Str)
    → contains xs k ≡ false
    → all (contains ys) xs ≡ true
    → all (contains (drop_one k ys)) xs ≡ true
unfolding contains
all-drop_one k [] ys d h = refl
all-drop_one k (x ∷ xs) ys d h =
    ground (arith, all-drop_one k xs ys, contains-drop_one k x ys, eq_str→eq k x, eq_str_refl k)

all-weaken :
    (k : Str) (xs ys : List Str) → all (contains xs) ys ≡ true → all (contains (k ∷ xs)) ys ≡ true
unfolding contains
all-weaken k xs [] h = refl
all-weaken k xs (y ∷ ys) h = ground (arith, all-weaken k xs ys)

all-put_back :
    (k : Str) (xs ys : List Str)
    → all (contains xs) (drop_one k ys) ≡ true
    → all (contains (k ∷ xs)) ys ≡ true
unfolding contains drop_one
all-put_back k xs [] h = refl
all-put_back k xs (y ∷ ys) h =
    ground (arith, all-put_back k xs ys, all-weaken k xs ys, eq_str→eq y k, eq_str_refl k)

-- As many names, all of the one among the other, are all of the other.
pub contains-pigeonhole :
    (xs ys : List Str)
    → distinct xs ≡ true
    → all (contains ys) xs ≡ true
    → length ys ≤ length xs
    → all (contains xs) ys ≡ true
unfolding distinct
contains-pigeonhole [] [] d h n = refl
contains-pigeonhole [] (y ∷ ys) d h n = absurd (omega (arith, n))
contains-pigeonhole (x ∷ xs) ys d h n =
    let (here, later) = and-true (contains ys x) (all (contains ys) xs) h in
    let inside = all-drop_one x xs ys (ground arith) later in
    let shorter = length-drop_one x ys here in
    all-put_back x xs ys
      (contains-pigeonhole xs (drop_one x ys) (ground arith) inside (omega (arith, n, shorter)))

-- A string or a number.
abbrev pub plain : Option Value → Bool
plain (some (text s)) = true
plain (some (number s)) = true
plain _ = false

-- A lower-case letter or an underscore: the characters of the names of JWT members.
abbrev pub is_small : ℕ → Bool
is_small c = is_lower c || c == b'_'

-- strings.EqualFold compares texts of small characters byte by byte.
abbrev pub FoldsSmall : Platform → Type 0
FoldsSmall p =
    (s t : Str) → all is_small s ≡ true → all is_small t ≡ true → p.equal_fold s t ≡ eq_str s t

plain-scanned : (p : Platform) (v : Value) → plain (some v) ≡ true → scan_value p v ≡ true
unfolding scan_value
plain-scanned p (text s) h = refl
plain-scanned p (number s) h = refl
plain-scanned p null h = absurd (ground arith)
plain-scanned p (bool b) h = absurd (ground arith)
plain-scanned p (array xs) h = absurd (ground arith)
plain-scanned p (object ms) h = absurd (ground arith)

pub all-at :
    (f : Str → Bool) (ks : List Str) (j : Str) → all f ks ≡ true → contains ks j ≡ true → f j ≡ true
unfolding contains
all-at f [] j a h = absurd (ground arith)
all-at f (k ∷ ks) j a h = elim (Bool-cases (eq_str k j)) [
  | inl e ↦ subst (λ x. f x ≡ true) (eq_str→eq k j e) (ground arith)
  | inr e ↦ all-at f ks j (ground arith) (ground arith)
]

lookup-fresh : (k : Str) (ms : Members) → contains (names ms) k ≡ false → lookup k ms ≡ none
unfolding contains lookup
lookup-fresh k end h = refl
lookup-fresh k (member j v ms) h = ground (arith, lookup-fresh k ms)

lookup-head :
    (k : Str) (v : Value) (ms : Members)
    → contains (names ms) k ≡ false
    → lookup k (member k v ms) ≡ some v
unfolding lookup
lookup-head k v ms h = ground (arith, lookup-fresh k ms h, eq_str_refl k)

lookup-tail :
    (k j : Str) (v : Value) (ms : Members)
    → eq_str k j ≡ false
    → lookup j (member k v ms) ≡ lookup j ms
unfolding lookup
lookup-tail k j v ms h = ground arith

-- The names are none of those seen.
abbrev are_new : List Str → List Str → Bool
are_new seen js = all (λ j. not (contains seen j)) js

are_new-cons :
    (k : Str) (seen js : List Str)
    → contains js k ≡ false
    → are_new seen js ≡ true
    → are_new (k ∷ seen) js ≡ true
unfolding contains
are_new-cons k seen [] h a = refl
are_new-cons k seen (j ∷ js) h a =
    ground (arith, are_new-cons k seen js, eq_str→eq k j, eq_str_refl j)

module _ (p : Platform) (folds : FoldsSmall p) where
  folds_into-contains :
      (seen : List Str) (k : Str)
      → all (all is_small) seen ≡ true
      → all is_small k ≡ true
      → folds_into p seen k ≡ contains seen k
  unfolding contains
  folds_into-contains [] k s h = refl
  folds_into-contains (j ∷ seen) k s h = ground (arith, folds j k, folds_into-contains seen k)

  module _ (required : List Str) (small : all (all is_small) required ≡ true) where
    scan_members-plain :
        (ms : Members) (seen : List Str)
        → distinct (names ms) ≡ true
        → all (contains required) (names ms) ≡ true
        → ((j : Str) → contains (names ms) j ≡ true → plain (lookup j ms) ≡ true)
        → all (all is_small) seen ≡ true
        → are_new seen (names ms) ≡ true
        → scan_members p ms seen ≡ true
    unfolding scan_value distinct contains
    scan_members-plain end seen d r h s a = refl
    scan_members-plain (member k v ms) seen d r h s a =
        let fresh : contains (names ms) k ≡ false = ground arith in
        let here = all-at (all is_small) required k small (ground arith) in
        let apart = folds_into-contains seen k s here in
        let value =
          plain-scanned p v
            (subst (λ x. plain x ≡ true) (lookup-head k v ms fresh) (h k (first k))) in
        let rest =
          scan_members-plain ms (k ∷ seen) (ground arith) (ground arith)
            (λ j inside. later j inside fresh) (ground arith)
            (are_new-cons k seen (names ms) fresh (ground arith)) in
        ground (arith, apart, value, rest)
      where
        first : (j : Str) → contains (j ∷ names ms) j ≡ true
        first j = ground (arith, eq_str_refl j)

        differs :
            (j : Str)
            → contains (names ms) j ≡ true
            → contains (names ms) k ≡ false
            → eq_str k j ≡ false
        differs j inside fresh = ground (arith, eq_str→eq k j)

        later :
            (j : Str)
            → contains (names ms) j ≡ true
            → contains (names ms) k ≡ false
            → plain (lookup j ms) ≡ true
        later j inside fresh =
            subst (λ x. plain x ≡ true) (lookup-tail k j v ms (differs j inside fresh))
              (h j (ground arith))

-- An object with the required members and no others, each name once.
pub record IsExact (required : List Str) (o : Members) : Type 0 where
  pub once : distinct (names o) ≡ true
  pub counted : length (names o) ≡ length required
  pub complete : all (λ k. is_present k o) required ≡ true

present-contains : (k : Str) (o : Members) → is_present k o ≡ true → contains (names o) k ≡ true
present-contains k o h = elim (Bool-cases (contains (names o) k)) [
  | inl e ↦ e
  | inr e ↦ absurd (ground (arith, lookup-fresh k o e))
]

all-present :
    (o : Members) (ks : List Str)
    → all (λ k. is_present k o) ks ≡ true
    → all (contains (names o)) ks ≡ true
all-present o [] h = refl
all-present o (k ∷ ks) h = ground (arith, present-contains k o, all-present o ks)

module _ (required : List Str) (once : distinct required ≡ true) (o : Members)
    (exact : IsExact required o) where
  pub exact-named : all (contains required) (names o) ≡ true
  exact-named =
      contains-pigeonhole required (names o) once (all-present o required exact.complete)
        (omega (arith, exact.counted))

  -- closedSet passes.
  pub exact-closed_set : closed_set o required required ≡ true
  unfolding closed_set
  exact-closed_set = ground (arith, exact-named, exact.complete)

  -- The scan for names that fold into one another passes, where every member is a string or a number.
  pub exact-scanned :
      (p : Platform)
      → FoldsSmall p
      → all (all is_small) required ≡ true
      → all (λ k. plain (lookup k o)) required ≡ true
      → scan_value p (object o) ≡ true
  unfolding scan_value contains
  exact-scanned p folds small values =
      scan_members-plain p folds required small o [] exact.once exact-named
        (λ j inside.
          all-at (λ k. plain (lookup k o)) required j values
            (all-at (contains required) (names o) j exact-named inside))
        refl (nothing_seen (names o))
    where
      nothing_seen : (js : List Str) → are_new [] js ≡ true
      nothing_seen [] = refl
      nothing_seen (j ∷ js) = nothing_seen js
