-- ===== src/Base/Text.antt =====
-- Go strings as lists of bytes: literals, equality, and the character classes of the patterns.
use Prim.Native.Nat.{ℕ}
use Prim.Native.Char.{code}
use Prim.Native.String.{String}
use mathlib.Core.Path.{◌≡◌, refl}
use mathlib.Core.Logic.{◌↔◌}
use mathlib.Core.Bool.{Bool, true, false, ◌&&◌}
use mathlib.Core.List.{List, [], ◌∷◌}
use native.Mathlib.Omega.{arith}
use dev_health_go.Base.Tests.{leb, ◌==◌, if◌then◌else◌}

-- A Go string: its bytes.
abbrev pub Str : Type 0
Str = List ℕ

-- A literal. The literals of the program are ASCII, where code points are bytes.
abbrev pub codes : String → Str
codes String.[] = []
codes (String.◌∷◌ c s) = code c ∷ codes s

unfoldable pub eq_str : Str → Str → Bool
eq_str [] [] = true
eq_str (x ∷ xs) (y ∷ ys) = x == y && eq_str xs ys
eq_str _ _ = false

pub eq_str→eq : (s t : Str) → eq_str s t ≡ true → s ≡ t
unfolding eq_str
eq_str→eq [] [] h = refl
eq_str→eq [] (y ∷ ys) h = ground arith
eq_str→eq (x ∷ xs) [] h = ground arith
eq_str→eq (x ∷ xs) (y ∷ ys) h = ground (arith, eq_str→eq xs ys)

pub eq_str_refl : (s : Str) → eq_str s s ≡ true
unfolding eq_str
eq_str_refl [] = refl
eq_str_refl (x ∷ xs) = ground (arith, eq_str_refl xs)

pub eq→eq_str : (s t : Str) → s ≡ t → eq_str s t ≡ true
eq→eq_str s t e = rw e (eq_str_refl t)

pub eq_str_iff : (s t : Str) → (eq_str s t ≡ true) ↔ (s ≡ t)
eq_str_iff s t = (eq_str→eq s t, eq→eq_str s t)

abbrev pub is_empty : Str → Bool
is_empty [] = true
is_empty (x ∷ xs) = false

abbrev pub in_range : ℕ → ℕ → ℕ → Bool
in_range lo hi c = leb lo c && leb c hi

abbrev pub is_lower : ℕ → Bool
is_lower = in_range b'a' b'z'

abbrev pub is_upper : ℕ → Bool
is_upper = in_range b'A' b'Z'

abbrev pub is_digit : ℕ → Bool
is_digit = in_range b'0' b'9'

-- The pieces between the separators: `strings.Split` at one byte.
abbrev pub cons_head : ℕ → List Str → List Str
cons_head c [] = (c ∷ []) ∷ []
cons_head c (s ∷ ss) = (c ∷ s) ∷ ss

unfoldable pub split : ℕ → Str → List Str
split sep [] = [] ∷ []
split sep (c ∷ s) = let rest = split sep s in if c == sep then [] ∷ rest else cons_head c rest
