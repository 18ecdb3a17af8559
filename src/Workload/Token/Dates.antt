-- ===== src/Workload/Token/Dates.antt =====
-- A date of a token that tokenClaims of workloadtoken/exchange.go reads is one that numericDate of
-- authverify/accesstoken_wire.go reads, the same one.
use dev_health_go.Base.{
  ℕ, suc, zero, ◌+◌, ◌-◌, ◌*◌, ◌≤◌, ◌≡◌, refl, Str, length, is_digit, [], ◌∷◌, Bool, true, false,
  ◌&&◌, ◌==◌, ltb, leb, all, Option, none, some, arith, ◌⊎◌, inl, inr, Bool-cases,
}
use dev_health_go.Platform.{Platform}
use dev_health_go.Pep.Json.{Value, null, bool, number, text, array, object, Members, lookup}
use dev_health_go.Pep.Expiry.{value_from}
use dev_health_go.Authverify.Document.{numeric_date}
use dev_health_go.Workload.Slot.{Cause, Claims}
use dev_health_go.Workload.Token.{parse_int, date, integer_value, window, second}
use dev_health_go.Workload.Token.Objects.{plain}

-- The number with k zeros behind it.
scaled : ℕ → ℕ → ℕ
scaled zero n = n
scaled (suc k) n = scaled k (n * 10)

scaled_mono : (k m n : ℕ) → m ≤ n → scaled k m ≤ scaled k n
unfolding scaled
scaled_mono zero m n h = h
scaled_mono (suc k) m n h = scaled_mono k (m * 10) (n * 10) (omega arith)

value_from-grows : (n : ℕ) (s : Str) → n ≤ value_from n s
unfolding value_from
value_from-grows n [] = omega arith
value_from-grows n (c ∷ s) = omega (arith, value_from-grows (n * 10 + (c - b'0')) s)

value_from-scaled : (k n : ℕ) (s : Str) → k ≤ length s → scaled k n ≤ value_from n s
unfolding value_from scaled
value_from-scaled zero n s h = value_from-grows n s
value_from-scaled (suc k) n [] h = absurd (omega (arith, h))
value_from-scaled (suc k) n (c ∷ s) h = omega (
  arith,
  scaled_mono k (n * 10) (n * 10 + (c - b'0')) (omega arith),
  value_from-scaled k (n * 10 + (c - b'0')) s (omega (arith, h)),
)

-- A JSON number starts with no zero but the only digit of its integer part.
abbrev pub has_leading_zero : Str → Bool
has_leading_zero (c ∷ d ∷ s) = c == b'0' && is_digit d
has_leading_zero _ = false

million_million : scaled 12 1 ≡ 1_000_000_000_000
unfolding scaled
million_million = refl

-- A number of more than 12 digits is over the greatest date.
value_from-long :
    (c : ℕ) (s : Str) → 12 ≤ length s → b'1' ≤ c → 1_000_000_000_000 ≤ value_from 0 (c ∷ s)
unfolding value_from
value_from-long c s h first = omega (
  arith,
  million_million,
  scaled_mono 12 1 (0 * 10 + (c - b'0')) (omega (arith, first)),
  value_from-scaled 12 (0 * 10 + (c - b'0')) s h,
)

digits_fit :
    (s : Str)
    → all is_digit s ≡ true
    → has_leading_zero s ≡ false
    → value_from 0 s ≤ 253_402_300_799
    → length s ≤ 12
digits_fit [] d z h = omega arith
digits_fit (c ∷ []) d z h = omega arith
digits_fit (c ∷ e ∷ s) d z h = elim (Bool-cases (ltb 12 (length (c ∷ e ∷ s)))) [
  | inl long ↦
      let over = value_from-long c (e ∷ s) (ground arith) (ground arith) in
      absurd (omega (arith, over, h))
  | inr short ↦ ground arith
]

-- What a number is whose text is read as a date.
record IsDate (s : Str) (n : ℕ) : Type 0 where
  digits : (leb 1 (length s) && all is_digit s) ≡ true
  positive : 1 ≤ n
  bounded : n ≤ 253_402_300_799
  valued : value_from 0 s ≡ n

date-IsDate : (p : Platform) (s : Str) (n : ℕ) → date p (parse_int s) ≡ inr n → IsDate s n
unfolding parse_int
date-IsDate p [] n h = absurd (ground arith)
date-IsDate p (c ∷ s) n h = record {
  digits = ground arith;
  positive = ground arith;
  bounded = ground arith;
  valued = ground arith;
}

-- The three dates of a window, in seconds.
pub record IsWindow (p : Platform) (a b c : Cause ⊎ ℕ) (k : Claims) : Type 0 where
  pub iat : ℕ
  pub nbf : ℕ
  pub exp : ℕ
  pub at_iat : a ≡ inr iat
  pub at_nbf : b ≡ inr nbf
  pub at_exp : c ≡ inr exp
  pub ordered : iat ≤ nbf
  pub short : exp - iat ≤ 300
  pub begins : k.not_before ≡ nbf * second
  pub ends : k.expires ≡ exp * second

pub window-IsWindow :
    (p : Platform) (a b c : Cause ⊎ ℕ) (k : Claims) → window p a b c ≡ inr k → IsWindow p a b c k
window-IsWindow p (inl err) b c k h = absurd (ground arith)
window-IsWindow p (inr iat) (inl err) c k h = absurd (ground arith)
window-IsWindow p (inr iat) (inr nbf) (inl err) k h = absurd (ground arith)
window-IsWindow p (inr iat) (inr nbf) (inr exp) k h = record {
  iat = iat;
  nbf = nbf;
  exp = exp;
  at_iat = refl;
  at_nbf = refl;
  at_exp = refl;
  ordered = ground arith;
  short = ground arith;
  begins = ground arith;
  ends = ground arith;
}

-- A member that is read as a date is a number.
pub date-plain :
    (p : Platform) (v : Option Value) (n : ℕ) → date p (integer_value v) ≡ inr n → plain v ≡ true
date-plain p none n h = absurd (ground arith)
date-plain p (some null) n h = absurd (ground arith)
date-plain p (some (bool b)) n h = absurd (ground arith)
date-plain p (some (text s)) n h = absurd (ground arith)
date-plain p (some (array xs)) n h = absurd (ground arith)
date-plain p (some (object ms)) n h = absurd (ground arith)
date-plain p (some (number s)) n h = refl

module _ (p : Platform) (o : Members) (name : Str) where
  pub numeric_date-of :
      (v : Option Value) (n : ℕ)
      → lookup name o ≡ v
      → ((s : Str) → v ≡ some (number s) → has_leading_zero s ≡ false)
      → date p (integer_value v) ≡ inr n
      → numeric_date o name ≡ some n
  unfolding numeric_date parse_int
  numeric_date-of none n e z h = absurd (ground arith)
  numeric_date-of (some null) n e z h = absurd (ground arith)
  numeric_date-of (some (bool b)) n e z h = absurd (ground arith)
  numeric_date-of (some (text s)) n e z h = absurd (ground arith)
  numeric_date-of (some (array xs)) n e z h = absurd (ground arith)
  numeric_date-of (some (object ms)) n e z h = absurd (ground arith)
  numeric_date-of (some (number s)) n e z h =
      let d = date-IsDate p s n h in
      let fits =
        digits_fit s (ground (arith, d.digits)) (z s refl) (omega (arith, d.valued, d.bounded)) in
      ground (arith, e, d.digits, d.positive, d.bounded, d.valued, fits)
