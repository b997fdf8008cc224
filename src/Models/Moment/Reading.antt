-- ===== src/Models/Moment/Reading.antt =====
-- The text of a moment determines it.
use mesh_settle.Prelude.{ℕ, ◌≡◌, ◌∷◌, Text, arith}
use mesh_settle.Models.Moment.{Moment, two_digits, fraction_text, canonical_timestamp}

two_digits_injective : (n m : ℕ) (r t : Text) → two_digits n r ≡ two_digits m t → (n ≡ m) × (r ≡ t)
two_digits_injective n m r t e = ground arith

fraction_text_injective : (n m : ℕ) → fraction_text n ≡ fraction_text m → n ≡ m
unfolding fraction_text
fraction_text_injective n m e = ground arith

tail_injective : (c : ℕ) (r t : Text) → c ∷ r ≡ c ∷ t → r ≡ t
tail_injective c r t e = ground arith

moment_ext :
    (a b : Moment)
    → a.year ≡ b.year
    → a.month ≡ b.month
    → a.day ≡ b.day
    → a.hour ≡ b.hour
    → a.minute ≡ b.minute
    → a.second ≡ b.second
    → a.microsecond ≡ b.microsecond
    → a ≡ b
moment_ext a b y mo d h mi s us = λ i. record {
  year = y i;
  month = mo i;
  day = d i;
  hour = h i;
  minute = mi i;
  second = s i;
  microsecond = us i;
}

-- Two moments have the same canonical timestamp only if they are the same moment.
pub canonical_timestamp_injective :
    (a b : Moment) → canonical_timestamp a ≡ canonical_timestamp b → a ≡ b
unfolding canonical_timestamp
canonical_timestamp_injective a b e =
    let century = two_digits_injective _ _ _ _ e in
    let year = two_digits_injective _ _ _ _ century.1 in
    let month = two_digits_injective _ _ _ _ (tail_injective _ _ _ year.1) in
    let day = two_digits_injective _ _ _ _ (tail_injective _ _ _ month.1) in
    let hour = two_digits_injective _ _ _ _ (tail_injective _ _ _ day.1) in
    let minute = two_digits_injective _ _ _ _ (tail_injective _ _ _ hour.1) in
    let second = two_digits_injective _ _ _ _ (tail_injective _ _ _ minute.1) in
    moment_ext a b (omega (arith, century.0, year.0)) month.0 day.0 hour.0 minute.0 second.0
      (fraction_text_injective _ _ second.1)
