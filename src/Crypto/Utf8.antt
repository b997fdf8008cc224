-- ===== src/Crypto/Utf8.antt =====
-- `str.encode("utf-8")`, as shared/crypto.py calls it. A text holds Unicode scalar values, which is
-- what pydantic accepts as a `str`; there is no surrogate to refuse.
pub mod Decoding
use mesh_settle.Prelude.{ℕ, ◌+◌, ◌*◌, ◌/◌, ◌%◌, List, [], ◌∷◌, ◌++◌, Text, ltb, if◌then◌else◌}

unfoldable pub utf8_char : ℕ → List ℕ
utf8_char c =
    if ltb c 0x80
    then c ∷ []
    else if ltb c 0x800
    then (0xC0 + c / 64) ∷ (0x80 + c % 64) ∷ []
    else if ltb c 0x10000
    then (0xE0 + c / 4096) ∷ (0x80 + c / 64 % 64) ∷ (0x80 + c % 64) ∷ []
    else (0xF0 + c / 262144) ∷ (0x80 + c / 4096 % 64) ∷ (0x80 + c / 64 % 64) ∷ (0x80 + c % 64) ∷ []

unfoldable pub utf8_encode : Text → List ℕ
unfolding utf8_char
utf8_encode [] = []
utf8_encode (c ∷ s) = utf8_char c ++ utf8_encode s
