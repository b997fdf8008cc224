-- ===== src/Models/Fields.antt =====
-- shared/models.py: the field types and the checks on single fields. A check gives the list of the
-- errors that pydantic collects, which is empty where the field is accepted.
pub mod Built
pub mod Chars
use mesh_settle.Prelude.{
  ℕ, ◌^◌, ℤ, pos, negsuc, String, Bool, true, ◌&&◌, ◌||◌, Option, none, some, List, [], ◌∷◌, Text,
  codes, length, text_eq, leb, ◌==◌, if◌then◌else◌,
}
use mesh_settle.Crypto.Base64.{b64u_decode}
use mesh_settle.Models.Moment.{Moment, Datetime, normalize_to_utc}

-- An entry of `ValidationError.errors()`: its `loc` and its `msg`.
pub record ErrorItem : Type 0 where
  pub loc : List Text
  pub msg : Text

abbrev pub Errors : Type 0
Errors = List ErrorItem

abbrev pub error_at : String → String → Errors
error_at field message = record { loc = codes field ∷ []; msg = codes message } ∷ []

-- A validated value, or the errors of a `ValidationError`.
pub data Validated {ℓ} (A : Type ℓ) : Type ℓ where
  valid : A → Validated A
  invalid : Errors → Validated A

-- The model is built if no field has an error.
abbrev pub built {ℓ} : {A : Type ℓ} → Errors → A → Validated A
built [] a = valid a
built (e ∷ es) a = invalid (e ∷ es)

-- A character of `[A-Za-z0-9_.:\-]`.
unfoldable pub is_identifier_char : ℕ → Bool
is_identifier_char c =
    (leb b'A' c && leb c b'Z')
    || (leb b'a' c && leb c b'z')
    || (leb b'0' c && leb c b'9')
    || (c == b'_' || (c == b'.' || (c == b':' || c == b'-')))

unfoldable pub all_chars : (ℕ → Bool) → Text → Bool
all_chars p [] = true
all_chars p (c ∷ s) = p c && all_chars p s

-- `IDENTIFIER_PATTERN`: one to 64 such characters, and nothing else.
unfoldable pub is_identifier : Text → Bool
unfolding is_identifier_char all_chars
is_identifier s = all_chars is_identifier_char s && (leb 1 (length s) && leb (length s) 64)

unfoldable pub is_upper : ℕ → Bool
is_upper c = leb b'A' c && leb c b'Z'

-- `^[A-Z]{3}$`
unfoldable pub is_currency : Text → Bool
unfolding is_upper all_chars
is_currency s = all_chars is_upper s && length s == 3

abbrev pub max_amount_minor : ℕ
max_amount_minor = 10 ^ 12

unfoldable pub identifier_errors : String → Text → Errors
unfolding is_identifier
identifier_errors field s =
    if is_identifier s
    then []
    else error_at field "String should match pattern '^[A-Za-z0-9_.:\\-]{1,64}$'"

-- `_payee_differs_from_payer`, which runs on a payee that matches the pattern; `info.data` holds the
-- payer only if it was accepted.
unfoldable pub payee_errors : Text → Text → Errors
unfolding is_identifier text_eq
payee_errors payer payee =
    if is_identifier payee
    then (if is_identifier payer && text_eq payer payee
        then error_at "payee_id" "Value error, payer_id and payee_id must differ"
        else [])
    else error_at "payee_id" "String should match pattern '^[A-Za-z0-9_.:\\-]{1,64}$'"

unfoldable pub currency_errors : Text → Errors
unfolding is_currency
currency_errors s =
    if is_currency s then [] else error_at "currency" "String should match pattern '^[A-Z]{3}$'"

-- `Field(gt=0, le=MAX_AMOUNT_MINOR)`
unfoldable pub amount_errors : ℤ → Errors
amount_errors (negsuc n) = error_at "amount_minor" "Input should be greater than 0"
amount_errors (pos n) =
    if n == 0
    then error_at "amount_minor" "Input should be greater than 0"
    else if leb n max_amount_minor
    then []
    else error_at "amount_minor" "Input should be less than or equal to 1000000000000"

-- A timestamp field: the aware datetime that `_normalize_to_utc` requires.
unfoldable pub timestamp_errors : String → Datetime → Errors
unfolding normalize_to_utc
timestamp_errors field t = elim (normalize_to_utc t) [
  | none ↦ error_at field "Value error, timestamp must be timezone-aware"
  | some _ ↦ []
]

-- The moment of a timestamp; of a naive one, which is refused, its fields.
unfoldable pub moment_of : Datetime → Moment
moment_of (Datetime.naive m) = m
moment_of (Datetime.aware m) = m

-- A value where bytes are expected: bytes, a text, or anything else.
pub data RawBytes : Type 0 where
  raw : List ℕ → RawBytes
  text : Text → RawBytes
  other : RawBytes

-- `_coerce_bytes`; `none` is its `ValueError`.
unfoldable pub coerce_bytes : RawBytes → Option (List ℕ)
coerce_bytes (raw b) = some b
coerce_bytes (text s) = b64u_decode s
coerce_bytes other = none

unfoldable pub bytes_message : RawBytes → String
bytes_message (text s) = "Value error, value is not valid base64url"
bytes_message _ = "Value error, expected bytes or a base64url string"

-- The coerced bytes, or nothing where they are refused.
unfoldable pub bytes_of : RawBytes → List ℕ
unfolding coerce_bytes
bytes_of v = elim (coerce_bytes v) [ none ↦ [] | some b ↦ b ]

-- A field of bytes: coerced, then held to a test of the model's.
unfoldable pub bytes_errors : String → (List ℕ → Bool) → String → RawBytes → Errors
unfolding coerce_bytes bytes_message
bytes_errors field ok message v = elim (coerce_bytes v) [
  | none ↦ error_at field (bytes_message v)
  | some b ↦ if ok b then [] else error_at field message
]
