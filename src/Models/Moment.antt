-- ===== src/Models/Moment.antt =====
-- The values of datetime.datetime that shared/models.py uses: a UTC date and time by its fields, its
-- text as in `canonical_timestamp`, and its place in time, which differences of datetimes compare.
pub mod Reading
use mesh_settle.Prelude.{
  ℕ, ◌+◌, ◌-◌, ◌*◌, ◌/◌, ◌%◌, ◌≤◌, ◌<◌, Bool, ◌&&◌, ◌||◌, not, List, [], ◌∷◌, ◌++◌, Text, Option,
  some, none, leb, ltb, ◌==◌, if◌then◌else◌,
}

pub record Moment : Type 0 where
  pub year : ℕ
  pub month : ℕ
  pub day : ℕ
  pub hour : ℕ
  pub minute : ℕ
  pub second : ℕ
  pub microsecond : ℕ

-- A datetime as it is received: with no zone, or with one; the latter stands for its UTC moment.
pub data Datetime : Type 0 where
  naive : Moment → Datetime
  aware : Moment → Datetime

-- `_normalize_to_utc`; `none` is its `ValueError`.
unfoldable pub normalize_to_utc : Datetime → Option Moment
normalize_to_utc (naive m) = none
normalize_to_utc (aware m) = some m

abbrev pub digit : ℕ → ℕ
digit d = d + 48

abbrev pub two_digits : ℕ → Text → Text
two_digits n rest = digit (n / 10) ∷ digit (n % 10) ∷ rest

-- The fraction of `isoformat`, which is left out at zero, and the offset of UTC.
unfoldable pub fraction_text : ℕ → Text
fraction_text us =
    let offset = b'+' ∷ b'0' ∷ b'0' ∷ b':' ∷ b'0' ∷ b'0' ∷ [] in
    if us == 0
    then offset
    else b'.' ∷ two_digits (us / 10000) (two_digits (us / 100 % 100) (two_digits (us % 100) offset))

-- `canonical_timestamp`: `isoformat` of the moment in UTC.
unfoldable pub canonical_timestamp : Moment → Text
unfolding fraction_text
canonical_timestamp m = two_digits (m.year / 100) (
    two_digits (m.year % 100) (
      b'-'
      ∷ two_digits m.month (
          b'-'
          ∷ two_digits m.day (
              b'T'
              ∷ two_digits m.hour (
                  b':'
                  ∷ two_digits m.minute
                      (b':' ∷ two_digits m.second (fraction_text m.microsecond)))))))

unfoldable pub is_leap : ℕ → Bool
is_leap y = y % 4 == 0 && (not (y % 100 == 0) || y % 400 == 0)

-- The days of the year before a month.
unfoldable pub days_before_month : ℕ → ℕ → ℕ
unfolding is_leap
days_before_month y month =
    (if leb month 1
      then 0
      else if month == 2
      then 31
      else if month == 3
      then 59
      else if month == 4
      then 90
      else if month == 5
      then 120
      else if month == 6
      then 151
      else if month == 7
      then 181
      else if month == 8
      then 212
      else if month == 9
      then 243
      else if month == 10
      then 273
      else if month == 11
      then 304
      else 334)
    + (if ltb 2 month && is_leap y then 1 else 0)

-- `date.toordinal`
unfoldable pub ordinal : Moment → ℕ
unfolding days_before_month
ordinal m =
    let y = m.year - 1 in
    y * 365 + y / 4 - y / 100 + y / 400 + days_before_month m.year m.month + m.day

-- The microseconds since the first moment that a datetime can name.
unfoldable pub micros : Moment → ℕ
unfolding ordinal
micros m = (((ordinal m * 24 + m.hour) * 60 + m.minute) * 60 + m.second) * 1000000 + m.microsecond
