-- ===== src/Keys/Bootstrap/Values.antt =====
-- scripts/bootstrap_env.py: the characters of the values that it writes.
use mesh_settle.Prelude.{
  ℕ, ◌≡◌, refl, true, List, [], ◌∷◌, ◌++◌, Text, map, ◌+◌, ◌*◌, ◌/◌, ◌%◌, arith,
}
use mesh_settle.Crypto.Base64.{
  pad_char, digit_char, strip_before, rstrip_pad, urlsafe_b64encode, b64u_encode,
}
use mesh_settle.Keys.Bootstrap.{password}
use mesh_settle.Keys.Bootstrap.Reader.{is_bare_char, on_a_line}
use mesh_settle.Keys.Library.{Written, Written-Plain, is_pem_char}
use mesh_settle.Keys.Pem.{escape_pem}
use mesh_settle.Keys.Strings.{
  strip, All-strip, escape_newlines, unescape_newlines, unescape_newlines-escape,
}
use mesh_settle.Models.Fields.{all_chars}
use mesh_settle.Models.Fields.Chars.{All-all_chars, all_chars-All}

escape_newlines-on_a_line : (s : Text) → all_chars on_a_line (escape_newlines s) ≡ true
unfolding escape_newlines all_chars
escape_newlines-on_a_line [] = refl
escape_newlines-on_a_line (c ∷ s) = let rest = escape_newlines-on_a_line s in ground (arith, rest)

-- The text of a written key on one line.
module _ (pem : Text) (written : Written pem) where
  pub unescaped : unescape_newlines (escape_pem pem) ≡ strip pem
  unfolding escape_pem
  unescaped = unescape_newlines-escape (strip pem) (All-strip _ pem (Written-Plain pem written))

  pub escaped_line : all_chars on_a_line (escape_pem pem) ≡ true
  unfolding escape_pem
  escaped_line = escape_newlines-on_a_line (strip pem)

  pub escaped_chars : all_chars is_pem_char (unescape_newlines (escape_pem pem)) ≡ true
  escaped_chars = rw unescaped (
      all_chars-All is_pem_char (strip pem)
        (All-strip (λ c. is_pem_char c ≡ true) pem (All-all_chars is_pem_char pem written.chars)))

-- A password is made of digits of base64url.
digit_char-bare : (d : ℕ) → is_bare_char (digit_char d) ≡ true
unfolding digit_char is_bare_char
digit_char-bare d = ground arith

strip_before-bare :
    (d : ℕ) (s : Text)
    → all_chars is_bare_char s ≡ true
    → all_chars is_bare_char (strip_before (digit_char d) s) ≡ true
unfolding strip_before all_chars
strip_before-bare d [] h = ground (arith, digit_char-bare d)
strip_before-bare d (c ∷ s) h = ground (arith, digit_char-bare d, h)

rstrip_pad-bare :
    (digits : List ℕ) (rest : Text)
    → all_chars is_bare_char (rstrip_pad rest) ≡ true
    → all_chars is_bare_char (rstrip_pad (map digit_char digits ++ rest)) ≡ true
unfolding rstrip_pad
rstrip_pad-bare [] rest h = h
rstrip_pad-bare (d ∷ digits) rest h =
    strip_before-bare d (rstrip_pad (map digit_char digits ++ rest)) (rstrip_pad-bare digits rest h)

pub password-bare : (drawn : List ℕ) → all_chars is_bare_char (password drawn) ≡ true
unfolding password b64u_encode urlsafe_b64encode rstrip_pad all_chars strip_before
password-bare [] = refl
password-bare (a ∷ []) =
    rstrip_pad-bare ((a / 4) ∷ (a % 4 * 16) ∷ []) (pad_char ∷ pad_char ∷ []) refl
password-bare (a ∷ b ∷ []) =
    rstrip_pad-bare ((a / 4) ∷ (a % 4 * 16 + b / 16) ∷ (b % 16 * 4) ∷ []) (pad_char ∷ []) refl
password-bare (a ∷ b ∷ c ∷ rest) =
    rstrip_pad-bare ((a / 4) ∷ (a % 4 * 16 + b / 16) ∷ (b % 16 * 4 + c / 64) ∷ (c % 64) ∷ [])
      (urlsafe_b64encode rest) (password-bare rest)
