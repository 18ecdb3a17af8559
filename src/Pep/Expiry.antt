-- ===== src/Pep/Expiry.antt =====
-- `parseRevision` and `parseExpiry` (pep/strict.go). An instant is the nanoseconds since the first
-- instant of year 1, which is Go's zero time.
use dev_health_go.Base.{
  ℕ, suc, zero, ◌+◌, ◌-◌, ◌*◌, ◌/◌, ◌%◌, ◌^◌, ◌<◌, ◌≡◌, Str, [], ◌∷◌, length, Bool, false, not,
  ◌&&◌, ◌||◌, ◌==◌, leb, ltb, all, is_digit, Option, none, some, if◌then◌else◌, arith,
}
use dev_health_go.Base.Options.{◌>>=◌, ◌>>◌, guard}

-- The value of a run of digits.
unfoldable pub value_from : ℕ → Str → ℕ
value_from n [] = n
value_from n (c ∷ s) = value_from (n * 10 + (c - b'0')) s

-- ^(0|[1-9][0-9]*)$
abbrev pub is_integer_token : Str → Bool
is_integer_token [] = false
is_integer_token (c ∷ []) = is_digit c
is_integer_token (c ∷ d ∷ s) = is_digit c && not (c == b'0') && all is_digit (d ∷ s)

-- `strconv.ParseInt` into 64 bits refuses what does not fit.
unfoldable pub parse_revision : Str → Option ℕ
unfolding value_from
parse_revision raw = do
  guard (is_integer_token raw)
  guard (ltb (value_from 0 raw) (2 ^ 63))
  some (value_from 0 raw)

-- A number of exactly `k` digits, and the rest.
pub number_from : ℕ → ℕ → Str → Option (ℕ × Str)
number_from zero n s = some (n, s)
number_from (suc k) n [] = none
number_from (suc k) n (c ∷ s) = do guard (is_digit c); number_from k (n * 10 + (c - b'0')) s

abbrev number : ℕ → Str → Option (ℕ × Str)
number k s = number_from k 0 s

abbrev expect : ℕ → Str → Option Str
expect c [] = none
expect c (d ∷ s) = if d == c then some s else none

pub record Clock : Type 0 where
  pub year : ℕ
  pub month : ℕ
  pub day : ℕ
  pub hour : ℕ
  pub minute : ℕ
  pub second : ℕ

-- The date and time of the pattern, each component in its range: YYYY-MM-DDTHH:MM:SS.
pub read_clock : Str → Option (Clock × Str)
unfolding number_from
read_clock s = do
  (year, s) ← number 4 s
  s ← expect b'-' s
  (month, s) ← number 2 s
  s ← expect b'-' s
  (day, s) ← number 2 s
  s ← expect b'T' s
  (hour, s) ← number 2 s
  s ← expect b':' s
  (minute, s) ← number 2 s
  s ← expect b':' s
  (second, s) ← number 2 s
  guard (leb 1 year && leb 1 month && leb month 12 && leb 1 day && leb day 31)
  guard (leb hour 23 && leb minute 59 && leb second 59)
  some (
    record { year = year; month = month; day = day; hour = hour; minute = minute; second = second },
    s,
  )

-- The nanoseconds of the digits of a fraction: at most six, and `weight` is that of the next one.
pub fraction_from : ℕ → ℕ → ℕ → Str → ℕ × Str
fraction_from zero weight n s = (n, s)
fraction_from (suc k) weight n [] = (n, [])
fraction_from (suc k) weight n (c ∷ s) =
    let more = fraction_from k (weight / 10) (n + (c - b'0') * weight) s in
    if is_digit c then more else (n, c ∷ s)

-- (\.[0-9]{1,6})?
pub read_fraction : Str → Option (ℕ × Str)
unfolding fraction_from
read_fraction [] = some (0, [])
read_fraction (c ∷ []) = if c == b'.' then none else some (0, c ∷ [])
read_fraction (c ∷ d ∷ s) =
    if not (c == b'.')
    then some (0, c ∷ d ∷ s)
    else if is_digit d
    then some (fraction_from 6 100_000_000 0 (d ∷ s))
    else none

-- The offset from UTC in seconds: what to take from the local time and what to add to it.
pub read_zone : Str → Option (ℕ × ℕ)
unfolding number_from
read_zone [] = none
read_zone (c ∷ []) = if c == b'Z' then some (0, 0) else none
read_zone (c ∷ d ∷ s) = do
  guard (c == b'+' || c == b'-')
  (hour, s) ← number 2 (d ∷ s)
  s ← expect b':' s
  (minute, s) ← number 2 s
  guard (leb hour 23 && leb minute 59 && length s == 0)
  let seconds = hour * 3600 + minute * 60
  some (if c == b'+' then (seconds, 0) else (0, seconds))

abbrev is_leap : ℕ → Bool
is_leap y = y % 4 == 0 && (not (y % 100 == 0) || y % 400 == 0)

abbrev days_in : ℕ → ℕ → ℕ
days_in y m =
    if m == 2
    then (if is_leap y then 29 else 28)
    else if m == 4 || m == 6 || m == 9 || m == 11
    then 30
    else 31

-- The days of the months 1 to `n` of the year.
pub days_through : ℕ → ℕ → ℕ
days_through y zero = 0
days_through y (suc n) = days_in y (suc n) + days_through y n

-- The days before the first of the year, from year 1.
abbrev days_before : ℕ → ℕ
days_before y = (y - 1) * 365 + (y - 1) / 4 - (y - 1) / 100 + (y - 1) / 400

abbrev seconds_of : Clock → ℕ
seconds_of t =
    (days_before t.year + days_through t.year (t.month - 1) + (t.day - 1)) * 86400
    + t.hour * 3600
    + t.minute * 60
    + t.second

-- 9999-12-31T23:59:59.999999999Z
abbrev pub max_instant : ℕ
max_instant = 315_537_897_599_999_999_999

-- `time.Parse` refuses a day past the end of its month; an instant outside year 1 to 9999 in UTC is
-- refused.
unfoldable pub parse_expiry : Str → Option ℕ
unfolding read_clock read_fraction read_zone days_through
parse_expiry s = do
  (clock, s) ← read_clock s
  (nanos, s) ← read_fraction s
  (minus, plus) ← read_zone s
  guard (leb clock.day (days_in clock.year clock.month))
  guard (leb minus (seconds_of clock + plus))
  let instant = (seconds_of clock + plus - minus) * 1_000_000_000 + nanos
  guard (leb instant max_instant)
  some instant

-- A revision that is read fits 63 bits.
pub parse_revision-lt : (raw : Str) (n : ℕ) → parse_revision raw ≡ some n → n < 2 ^ 63
unfolding parse_revision
parse_revision-lt raw n h = ground arith
