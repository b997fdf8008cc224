-- ===== src/Crypto/Base64.antt =====
-- shared/crypto.py: `b64u_encode` and `b64u_decode`, over the standard library's base64 module.
-- `a2b_base64` is the decoder of the module binascii in its default mode, which skips what is no
-- digit; bytes and code points are numbers.
pub mod RoundTrip
pub mod Range
use Prim.Native.Nat.{bit_or}
use mesh_settle.Prelude.{
  ℕ, zero, suc, ◌+◌, ◌-◌, ◌*◌, ◌/◌, ◌%◌, Bool, true, false, ◌&&◌, Option, none, some, List, [], ◌∷◌,
  ◌++◌, Text, length, replicate, leb, ◌==◌, if◌then◌else◌,
}

-- The URL-safe alphabet: the character of a six-bit digit.
unfoldable pub digit_char : ℕ → ℕ
digit_char d =
    if leb d 25
    then d + 65
    else if leb d 51
    then d + 71
    else if leb d 61
    then d - 4
    else if d == 62
    then b'-'
    else b'_'

abbrev pub pad_char : ℕ
pad_char = b'='

-- `base64.urlsafe_b64encode`
unfoldable pub urlsafe_b64encode : List ℕ → Text
unfolding digit_char
urlsafe_b64encode [] = []
urlsafe_b64encode (a ∷ []) = digit_char (a / 4) ∷ digit_char (a % 4 * 16) ∷ pad_char ∷ pad_char ∷ []
urlsafe_b64encode (a ∷ b ∷ []) =
    digit_char (a / 4) ∷ digit_char (a % 4 * 16 + b / 16) ∷ digit_char (b % 16 * 4) ∷ pad_char ∷ []
urlsafe_b64encode (a ∷ b ∷ c ∷ rest) =
    digit_char (a / 4)
    ∷ digit_char (a % 4 * 16 + b / 16)
    ∷ digit_char (b % 16 * 4 + c / 64)
    ∷ digit_char (c % 64)
    ∷ urlsafe_b64encode rest

-- `.rstrip("=")`
unfoldable pub strip_before : ℕ → Text → Text
strip_before c [] = if c == pad_char then [] else c ∷ []
strip_before c (d ∷ rest) = c ∷ d ∷ rest

unfoldable pub rstrip_pad : Text → Text
rstrip_pad [] = []
rstrip_pad (c ∷ rest) = strip_before c (rstrip_pad rest)

unfoldable pub b64u_encode : List ℕ → Text
b64u_encode raw = rstrip_pad (urlsafe_b64encode raw)

-- The digit that a character stands for after `-` and `_` are put for `+` and `/`; the
-- translation leaves `+` and `/` themselves as they are.
unfoldable pub char_digit : ℕ → Option ℕ
char_digit c =
    if leb 65 c && leb c 90
    then some (c - 65)
    else if leb 97 c && leb c 122
    then some (c - 71)
    else if leb 48 c && leb c 57
    then some (c + 4)
    else if c == b'-'
    then some 62
    else if c == b'+'
    then some 62
    else if c == b'_'
    then some 63
    else if c == b'/'
    then some 63
    else none

-- The state of the decoder's loop: the digits read of the current group, the bits carried over
-- from the last one, and the run of padding characters.
pub record Quad : Type 0 where
  pub pos : ℕ
  pub leftchar : ℕ
  pub pads : ℕ

abbrev pub fresh_quad : Quad
fresh_quad = record { pos = 0; leftchar = 0; pads = 0 }

-- One more digit: the byte that it completes, and the next state.
unfoldable pub push_digit : Quad → ℕ → Option ℕ × Quad
push_digit q d =
    if q.pos == 0
    then (none, record { pos = 1; leftchar = d; pads = 0 })
    else if q.pos == 1
    then (some (q.leftchar * 4 + d / 16), record { pos = 2; leftchar = d % 16; pads = 0 })
    else if q.pos == 2
    then (some (q.leftchar * 16 + d / 4), record { pos = 3; leftchar = d % 4; pads = 0 })
    else (some (q.leftchar * 64 + d), record { pos = 0; leftchar = 0; pads = 0 })

-- Whether a padding character ends the input.
unfoldable pub pad_ends : Quad → Bool
pad_ends q = leb 2 q.pos && leb 4 (q.pos + q.pads + 1)

-- After a padding character that does not end the input; the run counts only from two digits on.
unfoldable pub skip_pad : Quad → Quad
skip_pad q = if leb 2 q.pos then record q { pads = q.pads + 1 } else q

abbrev pub emit : Option ℕ → Option (List ℕ) → Option (List ℕ)
emit none out = out
emit (some b) none = none
emit (some b) (some out) = some (b ∷ out)

-- `binascii.a2b_base64` without strict mode; `none` is `binascii.Error`.
unfoldable pub a2b_base64 : Quad → Text → Option (List ℕ)
a2b_base64 q [] = if q.pos == 0 then some [] else none
a2b_base64 q (c ∷ rest) = elim (c == pad_char) [
  | true ↦ elim (pad_ends q) [ true ↦ some [] | false ↦ a2b_base64 (skip_pad q) rest ]
  | false ↦ elim (char_digit c) [
    | none ↦ a2b_base64 q rest
    | some d ↦ emit (push_digit q d).0 (a2b_base64 (push_digit q d).1 rest)
  ]
]

-- Text beyond ASCII is refused before the decoder runs.
unfoldable pub is_ascii : Text → Bool
is_ascii [] = true
is_ascii (c ∷ rest) = leb c 127 && is_ascii rest

-- `(-len(encoded)) % 4`
unfoldable pub padding_needed : Text → ℕ
padding_needed encoded = (4 - length encoded % 4) % 4

-- `none` is the `ValueError` that every failure is turned into.
unfoldable pub b64u_decode : Text → Option (List ℕ)
unfolding is_ascii padding_needed
b64u_decode encoded =
    if is_ascii encoded
    then a2b_base64 fresh_quad (encoded ++ replicate (padding_needed encoded) pad_char)
    else none
