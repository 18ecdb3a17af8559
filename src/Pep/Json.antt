-- ===== src/Pep/Json.antt =====
-- JSON documents as encoding/json reads them, and the strict reading of pep/strict.go and the
-- accessors of pep/wire.go. A document is the tree of its tokens: an object keeps its members in
-- order with repetitions, a number keeps its text. `bytes.TrimSpace` and the check of the first byte
-- tell the kind of the value, which is its constructor here.
pub mod Strict
use dev_health_go.Base.{
  ℕ, suc, zero, ◌+◌, ◌≤◌, Str, codes, eq_str, List, [], ◌∷◌, ◌++◌, Bool, true, false, not, ◌&&◌,
  ◌||◌, leb, max, any, all, Option, none, some, if◌then◌else◌,
}

mutual
  pub data Value : Type 0 where
    null : Value
    bool : Bool → Value
    number text : Str → Value
    array : Items → Value
    object : Members → Value

  pub data Items : Type 0 where
    nil : Items
    item : Value → Items → Items

  pub data Members : Type 0 where
    end : Members
    member : Str → Value → Members → Members

-- `contains` (pep/request.go)
unfoldable pub contains : List Str → Str → Bool
contains [] s = false
contains (v ∷ l) s = eq_str v s || contains l s

-- No name stands twice.
unfoldable pub distinct : List Str → Bool
distinct [] = true
distinct (k ∷ ks) = not (contains ks k) && distinct ks

abbrev pub max_depth : ℕ
max_depth = 16

-- `walk`: the value at `depth`, its items, and its members with the names seen so far.
unfoldable mutual
  pub walk : Value → ℕ → Bool
  walk null depth = leb depth max_depth
  walk (bool b) depth = leb depth max_depth
  walk (number s) depth = leb depth max_depth
  walk (text s) depth = leb depth max_depth
  walk (array xs) depth = leb depth max_depth && walk_items xs depth
  walk (object ms) depth = leb depth max_depth && walk_members ms [] depth

  pub walk_items : Items → ℕ → Bool
  walk_items nil depth = true
  walk_items (item x xs) depth = walk x (depth + 1) && walk_items xs depth

  pub walk_members : Members → List Str → ℕ → Bool
  walk_members end seen depth = true
  walk_members (member k v ms) seen depth =
      not (contains seen k) && (walk v (depth + 1) && walk_members ms (k ∷ seen) depth)

-- `rejectDuplicates`, `true` for no error. That one value is the whole document is part of what the
-- reader of the document's tree has checked.
unfoldable pub no_duplicates : Value → Bool
no_duplicates v = walk v 0

-- `o[k]` of a decoded object: the last member of the name.
unfoldable pub lookup : Str → Members → Option Value
lookup k end = none
lookup k (member j v ms) = elim (lookup k ms) [
  | some w ↦ some w
  | none ↦ if eq_str j k then some v else none
]

abbrev pub names : Members → List Str
names end = []
names (member k v ms) = k ∷ names ms

abbrev pub list_of : Items → List Value
list_of nil = []
list_of (item x xs) = x ∷ list_of xs

abbrev pub as_object : Value → Option Members
as_object (object ms) = some ms
as_object _ = none

abbrev pub as_array : Value → Option (List Value)
as_array (array xs) = some (list_of xs)
as_array _ = none

abbrev pub as_string : Value → Option Str
as_string (text s) = some s
as_string _ = none

abbrev pub as_bool : Value → Option Bool
as_bool (bool b) = some b
as_bool _ = none

abbrev pub is_present : Str → Members → Bool
is_present k ms = elim (lookup k ms) [ none ↦ false | some v ↦ true ]

-- `keysWithin`
unfoldable pub keys_within : Members → List Str → List Str → Bool
keys_within o required optional =
    all (λ k. is_present k o) required
    && all (λ k. contains required k || contains optional k) (names o)
