-- ===== src/Crypto/Base64/RoundTrip.antt =====
-- Decoding after encoding: `b64u_decode` of `b64u_encode` in shared/crypto.py.
use mesh_settle.Prelude.{
  ℕ, ◌+◌, ◌*◌, ◌/◌, ◌%◌, ◌<◌, ◌≡◌, refl, true, false, some, List, [], ◌∷◌, ◌++◌, Text, All,
  replicate, arith, ◌==◌,
}
use mesh_settle.Crypto.Base64.{
  digit_char, pad_char, urlsafe_b64encode, strip_before, rstrip_pad, b64u_encode, char_digit, Quad,
  push_digit, pad_ends, skip_pad, fresh_quad, emit, a2b_base64, is_ascii, padding_needed,
  b64u_decode,
}

abbrev pub Bytes : List ℕ → Type 0
Bytes = All (λ b. b < 256)

char_digit-digit_char : (d : ℕ) → d < 64 → char_digit (digit_char d) ≡ some d
unfolding char_digit digit_char
char_digit-digit_char d h = ground arith

digit_char-ne-pad_char : (d : ℕ) → d < 64 → (digit_char d == pad_char) ≡ false
unfolding digit_char
digit_char-ne-pad_char d h = ground arith

digit_char-lt : (d : ℕ) → d < 64 → digit_char d < 128
unfolding digit_char
digit_char-lt d h = ground arith

-- The encoding without its padding.
plain : List ℕ → Text
plain [] = []
plain (a ∷ []) = digit_char (a / 4) ∷ digit_char (a % 4 * 16) ∷ []
plain (a ∷ b ∷ []) =
    digit_char (a / 4) ∷ digit_char (a % 4 * 16 + b / 16) ∷ digit_char (b % 16 * 4) ∷ []
plain (a ∷ b ∷ c ∷ rest) =
    digit_char (a / 4)
    ∷ digit_char (a % 4 * 16 + b / 16)
    ∷ digit_char (b % 16 * 4 + c / 64)
    ∷ digit_char (c % 64)
    ∷ plain rest

strip_before_digit : (d : ℕ) (r : Text) → d < 64 → strip_before (digit_char d) r ≡ digit_char d ∷ r
unfolding strip_before
strip_before_digit d [] h = ground (arith, digit_char-ne-pad_char d h)
strip_before_digit d (c ∷ r) h = refl

-- The two padding characters go, as nothing stands behind them.
strip_before_pads : strip_before pad_char (strip_before pad_char []) ≡ []
unfolding strip_before
strip_before_pads = refl

strip_before_pad : strip_before pad_char [] ≡ []
unfolding strip_before
strip_before_pad = refl

-- The digits of one, two and three bytes are below 64.
digits_lt :
    (a b c : ℕ)
    → a < 256
    → b < 256
    → c < 256
    → (a / 4 < 64)
      × (a % 4 * 16 < 64)
      × (a % 4 * 16 + b / 16 < 64)
      × (b % 16 * 4 < 64)
      × (b % 16 * 4 + c / 64 < 64)
      × (c % 64 < 64)
digits_lt a b c ha hb hc = omega arith

rstrip_pad-encode : (raw : List ℕ) → Bytes raw → rstrip_pad (urlsafe_b64encode raw) ≡ plain raw
unfolding rstrip_pad urlsafe_b64encode plain
rstrip_pad-encode [] h = refl
rstrip_pad-encode (a ∷ []) h =
    let d = digits_lt a 0 0 h.0 (omega arith) (omega arith) in
    rw (strip_before_pads, strip_before_digit _ _ d.1, strip_before_digit _ _ d.0)
rstrip_pad-encode (a ∷ b ∷ []) h =
    let d = digits_lt a b 0 h.0 h.1.0 (omega arith) in
    rw (
      strip_before_pad,
      strip_before_digit _ _ d.3,
      strip_before_digit _ _ d.2,
      strip_before_digit _ _ d.0,
    )
rstrip_pad-encode (a ∷ b ∷ c ∷ rest) h =
    let d = digits_lt a b c h.0 h.1.0 h.1.1.0 in
    rw (
      rstrip_pad-encode rest h.1.1.1,
      strip_before_digit _ _ d.5,
      strip_before_digit _ _ d.4,
      strip_before_digit _ _ d.2,
      strip_before_digit _ _ d.0,
    )

-- The length of the encoding, up to whole groups: what `padding_needed` reads.
padding_of : List ℕ → ℕ
padding_of [] = 0
padding_of (a ∷ []) = 2
padding_of (a ∷ b ∷ []) = 1
padding_of (a ∷ b ∷ c ∷ rest) = padding_of rest

padding_needed-plain : (raw : List ℕ) → padding_needed (plain raw) ≡ padding_of raw
unfolding padding_needed plain padding_of
padding_needed-plain [] = refl
padding_needed-plain (a ∷ []) = refl
padding_needed-plain (a ∷ b ∷ []) = refl
padding_needed-plain (a ∷ b ∷ c ∷ rest) = omega (arith, padding_needed-plain rest)

is_ascii-plain : (raw : List ℕ) → Bytes raw → is_ascii (plain raw) ≡ true
unfolding is_ascii plain
is_ascii-plain [] h = refl
is_ascii-plain (a ∷ []) h =
    let d = digits_lt a 0 0 h.0 (omega arith) (omega arith) in
    ground (arith, digit_char-lt _ d.0, digit_char-lt _ d.1)
is_ascii-plain (a ∷ b ∷ []) h =
    let d = digits_lt a b 0 h.0 h.1.0 (omega arith) in
    ground (arith, digit_char-lt _ d.0, digit_char-lt _ d.2, digit_char-lt _ d.3)
is_ascii-plain (a ∷ b ∷ c ∷ rest) h =
    let d = digits_lt a b c h.0 h.1.0 h.1.1.0 in
    ground (
      arith,
      digit_char-lt _ d.0,
      digit_char-lt _ d.2,
      digit_char-lt _ d.4,
      digit_char-lt _ d.5,
      is_ascii-plain rest h.1.1.1,
    )

-- The decoder's loop at a digit.
a2b_base64-digit :
    (q : Quad) (d : ℕ) (rest : Text)
    → d < 64
    → a2b_base64 q (digit_char d ∷ rest)
      ≡ emit (push_digit q d).0 (a2b_base64 (push_digit q d).1 rest)
unfolding a2b_base64
a2b_base64-digit q d rest h = ground (arith, digit_char-ne-pad_char d h, char_digit-digit_char d h)

-- The bytes that the digits of a group give back.
bytes_back :
    (a b c : ℕ)
    → a < 256
    → b < 256
    → c < 256
    → (a / 4 * 4 + a % 4 * 16 / 16 ≡ a)
      × (a / 4 * 4 + (a % 4 * 16 + b / 16) / 16 ≡ a)
      × ((a % 4 * 16 + b / 16) % 16 * 16 + b % 16 * 4 / 4 ≡ b)
      × ((a % 4 * 16 + b / 16) % 16 * 16 + (b % 16 * 4 + c / 64) / 4 ≡ b)
      × ((b % 16 * 4 + c / 64) % 4 * 64 + c % 64 ≡ c)
bytes_back a b c ha hb hc = omega arith

a2b_base64_two_pads :
    (x : ℕ)
    → a2b_base64 (record { pos = 2; leftchar = x; pads = 0 }) (pad_char ∷ pad_char ∷ []) ≡ some []
unfolding a2b_base64 pad_ends skip_pad
a2b_base64_two_pads x = refl

a2b_base64_pad :
    (x : ℕ) → a2b_base64 (record { pos = 3; leftchar = x; pads = 0 }) (pad_char ∷ []) ≡ some []
unfolding a2b_base64 pad_ends
a2b_base64_pad x = refl

a2b_base64-plain :
    (raw : List ℕ)
    → Bytes raw
    → a2b_base64 fresh_quad (plain raw ++ replicate (padding_of raw) pad_char) ≡ some raw
unfolding plain padding_of push_digit
a2b_base64-plain [] h = unfold a2b_base64 in refl
a2b_base64-plain (a ∷ []) h =
    let d = digits_lt a 0 0 h.0 (omega arith) (omega arith) in
    let e = bytes_back a 0 0 h.0 (omega arith) (omega arith) in
    rw (a2b_base64-digit _ _ _ d.0, a2b_base64-digit _ _ _ d.1, e.0, a2b_base64_two_pads)
a2b_base64-plain (a ∷ b ∷ []) h =
    let d = digits_lt a b 0 h.0 h.1.0 (omega arith) in
    let e = bytes_back a b 0 h.0 h.1.0 (omega arith) in
    rw (
      a2b_base64-digit _ _ _ d.0,
      a2b_base64-digit _ _ _ d.2,
      a2b_base64-digit _ _ _ d.3,
      e.1,
      e.2,
      a2b_base64_pad,
    )
a2b_base64-plain (a ∷ b ∷ c ∷ rest) h =
    let d = digits_lt a b c h.0 h.1.0 h.1.1.0 in
    let e = bytes_back a b c h.0 h.1.0 h.1.1.0 in
    rw (
      a2b_base64-digit _ _ _ d.0,
      a2b_base64-digit _ _ _ d.2,
      a2b_base64-digit _ _ _ d.4,
      a2b_base64-digit _ _ _ d.5,
      a2b_base64-plain rest h.1.1.1,
      e.1,
      e.3,
      e.4,
    )

-- Decoding the unpadded base64url text of any bytes gives those bytes.
pub b64u_decode-encode : (raw : List ℕ) → Bytes raw → b64u_decode (b64u_encode raw) ≡ some raw
unfolding b64u_decode b64u_encode
b64u_decode-encode raw h = rw (
  rstrip_pad-encode raw h,
  is_ascii-plain raw h,
  padding_needed-plain raw,
  a2b_base64-plain raw h,
)
