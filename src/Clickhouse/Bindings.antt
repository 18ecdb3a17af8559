-- ===== src/Clickhouse/Bindings.antt =====
-- clickhouse/bindings.go: query bindings as native-protocol parameters. The formatters of the standard
-- library (decimals, timestamps) are parameters; a Go value is its kind and what it holds.
pub mod Quoted
pub mod Names
use dev_health_go.Base.{
  ℕ, Str, codes, ◌++◌, List, [], ◌∷◌, Bool, true, false, not, ◌&&◌, ◌||◌, ◌==◌, all, is_lower,
  is_upper, is_digit, Option, none, some, ◌⊎◌, inl, inr, if◌then◌else◌,
}
use dev_health_go.Pep.Json.{contains}

pub data BindingError : Type 0 where
  invalid_binding unsupported_binding unsafe_value : BindingError

-- A bound value by its kind; `integer` is negative or not, with its magnitude.
pub data Value : Type 0 where
  nil_value other sequence : Value
  time : ℕ → Value
  strings : List Str → Value
  text : Str → Value
  unsigned : ℕ → Value
  integer : Bool → ℕ → Value

pub record Binding : Type 0 where
  pub name : Str
  pub value : Value

abbrev name_start : ℕ → Bool
name_start c = is_upper c || is_lower c || c == b'_'

-- ^[A-Za-z_][A-Za-z0-9_]*$
abbrev pub is_name : Str → Bool
is_name [] = false
is_name (c ∷ s) = name_start c && all (λ d. name_start d || is_digit d) s

-- `strings.ReplaceAll(value, "'", "''")`
unfoldable pub double_quotes : Str → Str
double_quotes [] = []
double_quotes (c ∷ s) =
    let rest = double_quotes s in if c == b'\'' then c ∷ (c ∷ rest) else c ∷ rest

unfoldable pub has_backslash : Str → Bool
has_backslash [] = false
has_backslash (c ∷ s) = c == b'\\' || has_backslash s

-- `clickHouseQuotedString`
unfoldable pub quoted_string : Str → BindingError ⊎ Str
unfolding has_backslash
quoted_string s = if has_backslash s then inl unsafe_value else inr (double_quotes s)

abbrev pub cons_right : Str → BindingError ⊎ List Str → BindingError ⊎ List Str
cons_right s (inl e) = inl e
cons_right s (inr ss) = inr (s ∷ ss)

abbrev pub in_quotes : Str → Str
in_quotes s = b'\'' ∷ s ++ b'\'' ∷ []

abbrev pub encode_one : BindingError ⊎ Str → BindingError ⊎ List Str → BindingError ⊎ List Str
encode_one (inl e) rest = inl e
encode_one (inr s) rest = cons_right (in_quotes s) rest

-- The loop over the values: the first refused one ends it.
unfoldable pub encoded : List Str → BindingError ⊎ List Str
encoded [] = inr []
encoded (s ∷ ss) = let rest = encoded ss in encode_one (quoted_string s) rest

abbrev pub joined : List Str → Str
joined [] = []
joined (s ∷ []) = s
joined (s ∷ (t ∷ ss)) = s ++ b',' ∷ joined (t ∷ ss)

abbrev pub in_brackets : BindingError ⊎ List Str → BindingError ⊎ Str
in_brackets (inl e) = inl e
in_brackets (inr ss) = inr (b'[' ∷ joined ss ++ b']' ∷ [])

-- `clickHouseStringArray`
unfoldable pub string_array : List Str → BindingError ⊎ Str
unfolding encoded
string_array ss = in_brackets (encoded ss)

module _ (format_uint : ℕ → Str) (format_int : Bool → ℕ → Str) (format_time : ℕ → Str) where
  -- `clickHouseParameter`
  unfoldable pub parameter : Value → BindingError ⊎ Str
  parameter nil_value = inr (codes "\\\\N")
  parameter (time t) = inr (format_time t)
  parameter (strings ss) = string_array ss
  parameter (text s) = inr s
  parameter (unsigned n) = inr (format_uint n)
  parameter (integer negative n) = inr (format_int negative n)
  parameter sequence = inl unsupported_binding
  parameter other = inl invalid_binding

  abbrev pub names_of : List (Str × Str) → List Str
  names_of [] = []
  names_of ((k, v) ∷ ps) = k ∷ names_of ps

  abbrev pub named : Str → BindingError ⊎ Str → BindingError ⊎ (Str × Str)
  named k (inl e) = inl e
  named k (inr v) = inr (k, v)

  -- One round of the loop: the parameter that a binding adds to those there are.
  unfoldable pub translate_one : List (Str × Str) → Binding → BindingError ⊎ (Str × Str)
  translate_one done b =
      if not (is_name b.name) || contains (names_of done) b.name
      then inl invalid_binding
      else named b.name (parameter b.value)

  -- The loop, on the parameters so far, the last one first.
  unfoldable pub translate_from : List (Str × Str) → List Binding → BindingError ⊎ List (Str × Str)
  translate_from done [] = inr done
  translate_from done (b ∷ bs) = elim (translate_one done b) [
    | inl e ↦ inl e
    | inr p ↦ translate_from (p ∷ done) bs
  ]

  -- `translateBindings`: the map as the list of its entries.
  unfoldable pub translate_bindings : List Binding → BindingError ⊎ List (Str × Str)
  unfolding translate_from
  translate_bindings bs = translate_from [] bs
