-- ===== src/Crypto/Utf8/Decoding.antt =====
-- A reader of UTF-8, which undoes `utf8_encode`; so the encoding is injective.
use mesh_settle.Prelude.{
  true, false, ℕ, zero, suc, ◌+◌, ◌-◌, ◌*◌, ◌≡◌, refl, ap, sym, ◌∙◌, List, [], ◌∷◌, ◌++◌, Text,
  arith, ltb,
}
use mesh_settle.Crypto.Utf8.{utf8_char, utf8_encode}

-- The bytes still to come of the current character, and its bits so far.
decode : ℕ → ℕ → List ℕ → Text
decode more acc [] = []
decode zero acc (b ∷ bs) = elim (ltb b 0x80) [
  | true ↦ b ∷ decode 0 0 bs
  | false ↦ elim (ltb b 0xE0) [
    | true ↦ decode 1 (b - 0xC0) bs
    | false ↦ elim (ltb b 0xF0) [ true ↦ decode 2 (b - 0xE0) bs | false ↦ decode 3 (b - 0xF0) bs ]
  ]
]
decode (suc zero) acc (b ∷ bs) = (acc * 64 + (b - 0x80)) ∷ decode 0 0 bs
decode (suc (suc more)) acc (b ∷ bs) = decode (suc more) (acc * 64 + (b - 0x80)) bs

decode-utf8_char : (c : ℕ) (bs : List ℕ) → decode 0 0 (utf8_char c ++ bs) ≡ c ∷ decode 0 0 bs
unfolding decode utf8_char
decode-utf8_char c bs = ground arith

decode-utf8_encode : (s : Text) → decode 0 0 (utf8_encode s) ≡ s
unfolding utf8_encode
decode-utf8_encode [] = unfold decode in refl
decode-utf8_encode (c ∷ s) = decode-utf8_char c (utf8_encode s) ∙ ap (◌∷◌ c) (decode-utf8_encode s)

-- Two texts have the same UTF-8 bytes only if they are the same text.
pub utf8_encode_injective : (s t : Text) → utf8_encode s ≡ utf8_encode t → s ≡ t
utf8_encode_injective s t e = sym (decode-utf8_encode s) ∙ ap (decode 0 0) e ∙ decode-utf8_encode t
