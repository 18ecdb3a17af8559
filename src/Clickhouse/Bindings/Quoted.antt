-- ===== src/Clickhouse/Bindings/Quoted.antt =====
-- The array literal keeps what it quotes (clickhouse/bindings.go, clickHouseStringArray).
use dev_health_go.Base.{
  ℕ, suc, zero, length, ◌<◌, Str, ◌++◌, List, [], ◌∷◌, Bool, true, false, ◌==◌, Option, none, some,
  ◌⊎◌, inl, inr, if◌then◌else◌, ◌≡◌, refl, arith, Bool-cases, ap, ◌∙◌, sym, subst,
}
use mathlib.Core.Sum.{inr-injective}
use dev_health_go.Clickhouse.Bindings.{
  BindingError, double_quotes, quoted_string, in_quotes, encoded, joined, in_brackets, string_array,
}

-- A reader of a quoted literal's rest: a doubled quote is a quote, a single one ends the literal.
abbrev cons_first : ℕ → Option (Str × Str) → Option (Str × Str)
cons_first c none = none
cons_first c (some (s, rest)) = some (c ∷ s, rest)

abbrev starts_quote : Str → Bool
starts_quote [] = false
starts_quote (c ∷ s) = c == b'\''

read_quoted : Str → Option (Str × Str)
read_quoted [] = none
read_quoted (c ∷ []) = if c == b'\'' then some ([], []) else none
read_quoted (c ∷ (d ∷ s)) =
    let after = read_quoted s in
    let rest = read_quoted (d ∷ s) in
    if c == b'\''
    then (if d == b'\'' then cons_first c after else some ([], d ∷ s))
    else cons_first c rest

read_quoted-plain :
    (c : ℕ) (t s rest : Str)
    → c == b'\'' ≡ false
    → read_quoted t ≡ some (s, rest)
    → read_quoted (c ∷ t) ≡ some (c ∷ s, rest)
unfolding read_quoted
read_quoted-plain c [] s rest p h = absurd (ground arith)
read_quoted-plain c (d ∷ t) s rest p h = ground arith

read_quoted-doubled :
    (c : ℕ) (t s rest : Str)
    → c == b'\'' ≡ true
    → read_quoted t ≡ some (s, rest)
    → read_quoted (c ∷ (c ∷ t)) ≡ some (c ∷ s, rest)
unfolding read_quoted
read_quoted-doubled c t s rest p h = ground arith

-- What the reader makes of a quoted text that something else than a quote follows.
read_quoted-double :
    (s rest : Str)
    → starts_quote rest ≡ false
    → read_quoted (double_quotes s ++ b'\'' ∷ rest) ≡ some (s, rest)
unfolding read_quoted double_quotes
read_quoted-double [] [] h = refl
read_quoted-double [] (c ∷ rest) h = ground arith
read_quoted-double (c ∷ s) rest h =
    let ih = read_quoted-double s rest h in
    elim (Bool-cases (c == b'\'')) [
      | inl quote ↦
          ground (arith, read_quoted-doubled c (double_quotes s ++ b'\'' ∷ rest) s rest quote ih)
      | inr plain ↦
          ground (arith, read_quoted-plain c (double_quotes s ++ b'\'' ∷ rest) s rest plain ih)
    ]

append_assoc : (s t u : Str) → (s ++ t) ++ u ≡ s ++ (t ++ u)
append_assoc [] t u = refl
append_assoc (c ∷ s) t u = ap (λ x. c ∷ x) (append_assoc s t u)

-- A reader of an array literal: `read_items` takes what follows an item's opening quote, on fuel.
abbrev cons_item : Str → Option (List Str) → Option (List Str)
cons_item x none = none
cons_item x (some xs) = some (x ∷ xs)

abbrev next_item : Str → Option Str
next_item (a ∷ (b ∷ s)) = if a == b',' then (if b == b'\'' then some s else none) else none
next_item _ = none

abbrev is_end : Str → Bool
is_end (a ∷ []) = a == b']'
is_end _ = false

abbrev or_next : Bool → Str → Option (List Str) → Option (List Str)
or_next true x more = some (x ∷ [])
or_next false x more = cons_item x more

abbrev rest_of : Option (Str × Str) → Str
rest_of none = []
rest_of (some (x, rest)) = rest

abbrev or_empty : Option Str → Str
or_empty none = []
or_empty (some s) = s

read_items : ℕ → Str → Option (List Str)
read_items zero s = none
read_items (suc n) s =
    let more = read_items n (or_empty (next_item (rest_of (read_quoted s)))) in
    elim (read_quoted s) [ none ↦ none | some (x, rest) ↦ or_next (is_end rest) x more ]

pub read_array : ℕ → Str → Option (List Str)
unfolding read_items
read_array n (a ∷ (b ∷ s)) =
    if a == b'['
    then (if b == b']' then some [] else if b == b'\'' then read_items n s else none)
    else none
read_array n _ = none

abbrev literal : Str → List Str → Str
literal v [] = double_quotes v ++ b'\'' ∷ b']' ∷ []
literal v (w ∷ ws) = double_quotes v ++ b'\'' ∷ b',' ∷ b'\'' ∷ literal w ws

abbrev all_quoted : List Str → List Str
all_quoted [] = []
all_quoted (v ∷ vs) = in_quotes (double_quotes v) ∷ all_quoted vs

encoded-all_quoted : (vs es : List Str) → encoded vs ≡ inr es → es ≡ all_quoted vs
unfolding encoded quoted_string
encoded-all_quoted [] es h = ground arith
encoded-all_quoted (v ∷ vs) es h = from_rest (encoded vs) (encoded-all_quoted vs) refl
  where
    from_rest :
        (x : BindingError ⊎ List Str)
        → ((r : List Str) → encoded vs ≡ inr r → r ≡ all_quoted vs)
        → encoded vs ≡ x
        → es ≡ all_quoted (v ∷ vs)
    from_rest (inl e) ih p = absurd (ground arith)
    from_rest (inr r) ih p = ground (arith, ih r p)

joined-literal :
    (v : Str) (vs : List Str) → joined (all_quoted (v ∷ vs)) ++ b']' ∷ [] ≡ b'\'' ∷ literal v vs
joined-literal v [] = ap (λ x. b'\'' ∷ x) (append_assoc (double_quotes v) (b'\'' ∷ []) (b']' ∷ []))
joined-literal v (w ∷ ws) =
    let more = joined (all_quoted (w ∷ ws)) in
    ap (λ x. b'\'' ∷ x)
      (append_assoc (double_quotes v ++ b'\'' ∷ []) (b',' ∷ more) (b']' ∷ [])
        ∙ append_assoc (double_quotes v) (b'\'' ∷ []) (b',' ∷ (more ++ b']' ∷ []))
        ∙ ap (λ x. double_quotes v ++ b'\'' ∷ b',' ∷ x) (joined-literal w ws))

read_items-literal :
    (n : ℕ) (v : Str) (vs : List Str) → length vs < n → read_items n (literal v vs) ≡ some (v ∷ vs)
unfolding read_items
read_items-literal zero v vs h = absurd (omega arith)
read_items-literal (suc n) v [] h = ground (arith, read_quoted-double v (b']' ∷ []) refl)
read_items-literal (suc n) v (w ∷ ws) h = ground (
  arith,
  read_quoted-double v (b',' ∷ b'\'' ∷ literal w ws) refl,
  read_items-literal n w ws (omega arith),
)

empty_array : read_array 1 (b'[' ∷ (b']' ∷ [])) ≡ some []
unfolding read_array
empty_array = refl

read_array-literal :
    (v : Str) (vs : List Str)
    → read_array (suc (length (v ∷ vs))) (b'[' ∷ (b'\'' ∷ literal v vs)) ≡ some (v ∷ vs)
unfolding read_array
read_array-literal v vs = read_items-literal (suc (length (v ∷ vs))) v vs (omega arith)

-- An array literal that is built reads back as the values it was built from: a quote is doubled and
-- comes back as one, and every other byte stands for itself. The reader's fuel is one more than the
-- values.
pub read_array-string_array :
    (vs : List Str) (lit : Str)
    → string_array vs ≡ inr lit
    → read_array (suc (length vs)) lit ≡ some vs
unfolding string_array
read_array-string_array vs lit h = from_items vs (encoded vs) refl h
  where
    read_eq :
        (vs es : List Str)
        → encoded vs ≡ inr es
        → in_brackets (inr es) ≡ inr lit
        → b'[' ∷ (joined (all_quoted vs) ++ b']' ∷ []) ≡ lit
    read_eq vs es p h =
        ap (λ x. b'[' ∷ (joined x ++ b']' ∷ [])) (sym (encoded-all_quoted vs es p))
        ∙ inr-injective (b'[' ∷ (joined es ++ b']' ∷ [])) lit h

    from_items :
        (vs : List Str) (x : BindingError ⊎ List Str)
        → encoded vs ≡ x
        → in_brackets x ≡ inr lit
        → read_array (suc (length vs)) lit ≡ some vs
    from_items vs (inl e) p h = absurd (ground arith)
    from_items [] (inr es) p h =
        let text = read_eq [] es p h in subst (λ l. read_array 1 l ≡ some []) text empty_array
    from_items (v ∷ vs) (inr es) p h =
        let text = ap (λ l. b'[' ∷ l) (sym (joined-literal v vs)) ∙ read_eq (v ∷ vs) es p h in
        subst (λ l. read_array (suc (length (v ∷ vs))) l ≡ some (v ∷ vs)) text
          (read_array-literal v vs)
