-- ===== src/Authverify/Document.antt =====
-- Strict objects: decodeObject, closedSet, stringMember and numericDate of
-- authverify/accesstoken_wire.go, and the scan for repeated names of authverify/jwks.go.
use dev_health_go.Base.{
  ℕ, Str, length, List, [], ◌∷◌, Bool, true, not, ◌&&◌, ◌||◌, leb, ltb, any, all, is_digit, Option,
  none, some, if◌then◌else◌,
}
use dev_health_go.Pep.Json.{
  Value, null, bool, number, text, array, object, Items, nil, item, Members, end, member, lookup,
  names, contains, is_present, as_object, as_string,
}
use dev_health_go.Pep.Expiry.{value_from}
use dev_health_go.Platform.{Platform}

-- 9999-12-31T23:59:59Z
abbrev pub max_numeric_date : ℕ
max_numeric_date = 253_402_300_799

-- `closedSet`: no name but the allowed, and every one required.
unfoldable pub closed_set : Members → List Str → List Str → Bool
closed_set o allowed required =
    all (contains allowed) (names o) && all (λ k. is_present k o) required

abbrev string_of : Option Value → Option Str
string_of none = none
string_of (some v) = as_string v

abbrev matching : (Str → Bool) → Option Str → Option Str
matching pattern none = none
matching pattern (some s) = if pattern s then some s else none

-- `stringMember` with a pattern; `any_text` stands for the nil pattern.
unfoldable pub string_member : Members → Str → (Str → Bool) → Option Str
string_member o name pattern = matching pattern (string_of (lookup name o))

abbrev pub any_text : Str → Bool
any_text s = true

abbrev number_of : Option Value → Option Str
number_of (some (number s)) = some s
number_of _ = none

abbrev date_of : Option Str → Option ℕ
date_of none = none
date_of (some s) =
    if not (leb 1 (length s) && all is_digit s) || ltb 12 (length s)
    then none
    else if not (leb 1 (value_from 0 s) && leb (value_from 0 s) max_numeric_date)
    then none
    else some (value_from 0 s)

-- `numericDate`: at most 12 digits, so the conversion to int64 does not fail.
unfoldable pub numeric_date : Members → Str → Option ℕ
numeric_date o name = date_of (number_of (lookup name o))

module _ (p : Platform) where
  -- A name that equals one of those seen, letter case aside.
  abbrev pub folds_into : List Str → Str → Bool
  folds_into seen name = any (λ previous. p.equal_fold previous name) seen

  -- `scanValue`
  unfoldable mutual
    pub scan_value : Value → Bool
    scan_value null = true
    scan_value (bool b) = true
    scan_value (number s) = true
    scan_value (text s) = true
    scan_value (array xs) = scan_items xs
    scan_value (object ms) = scan_members ms []

    pub scan_items : Items → Bool
    scan_items nil = true
    scan_items (item x xs) = scan_value x && scan_items xs

    pub scan_members : Members → List Str → Bool
    scan_members end seen = true
    scan_members (member k v ms) seen =
        not (folds_into seen k) && (scan_value v && scan_members ms (k ∷ seen))

  abbrev scanned : Option Value → Option Members
  scanned none = none
  scanned (some v) = if scan_value v then as_object v else none

  -- `decodeObject`, with `singleDocumentWithoutDuplicateMembers`.
  unfoldable pub decode_object : Str → Option Members
  unfolding scan_value
  decode_object raw = scanned (p.read raw)
