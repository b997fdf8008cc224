-- ===== src/Crypto/Base64/Range.antt =====
-- The decoder gives bytes: `b64u_decode` in shared/crypto.py.
use mesh_settle.Prelude.{
  ℕ, ◌<◌, ◌≡◌, refl, subst, inl, inr, Bool, true, Option, none, some, List, [], ◌∷◌, Text, arith,
  ltb, ◌==◌, if◌then◌else◌, Bool-cases, Option-cases,
}
use mesh_settle.Crypto.Base64.{
  pad_char, char_digit, Quad, push_digit, pad_ends, skip_pad, fresh_quad, emit, a2b_base64,
  is_ascii, b64u_decode,
}
use mesh_settle.Crypto.Base64.RoundTrip.{Bytes}

-- The bits that are carried over are as many as the position leaves.
abbrev carries : Quad → Bool
carries q =
    if q.pos == 0
    then true
    else if q.pos == 1
    then ltb q.leftchar 64
    else if q.pos == 2
    then ltb q.leftchar 16
    else ltb q.leftchar 4

abbrev OptionBytes : Option (List ℕ) → Type 0
OptionBytes none = Unit
OptionBytes (some b) = Bytes b

char_digit-lt : (c d : ℕ) → char_digit c ≡ some d → d < 64
unfolding char_digit
char_digit-lt c d e = ground (arith, e)

push_digit-carries : (q : Quad) (d : ℕ) → d < 64 → carries (push_digit q d).1 ≡ true
unfolding push_digit
push_digit-carries q d h = ground (arith, h)

push_digit-lt :
    (q : Quad) (d b : ℕ) → d < 64 → carries q ≡ true → (push_digit q d).0 ≡ some b → b < 256
unfolding push_digit
push_digit-lt q d b h k e = ground (arith, h, k, e)

skip_pad-carries : (q : Quad) → carries q ≡ true → carries (skip_pad q) ≡ true
unfolding skip_pad
skip_pad-carries q h = ground (arith, h)

emit-OptionBytes :
    (o : Option ℕ) (out : Option (List ℕ))
    → ((b : ℕ) → o ≡ some b → b < 256)
    → OptionBytes out
    → OptionBytes (emit o out)
emit-OptionBytes none out h k = k
emit-OptionBytes (some b) none h k = tt
emit-OptionBytes (some b) (some out) h k = (h b refl, k)

a2b_base64-OptionBytes : (q : Quad) (s : Text) → carries q ≡ true → OptionBytes (a2b_base64 q s)
unfolding a2b_base64
a2b_base64-OptionBytes q [] h = elim (Bool-cases (q.pos == 0)) [
  | inl done ↦ rw done tt
  | inr open_group ↦ rw open_group tt
]
a2b_base64-OptionBytes q (c ∷ rest) h = elim (Bool-cases (c == pad_char)) [
  | inl pad ↦
      rw (pad, a2b_base64)
        (elim (Bool-cases (pad_ends q)) [
          | inl ends ↦ rw (ends, a2b_base64) tt
          | inr goes_on ↦
              rw (goes_on, a2b_base64)
                (a2b_base64-OptionBytes (skip_pad q) rest (skip_pad-carries q h))
        ])
  | inr no_pad ↦
      rw (no_pad, a2b_base64)
        (elim (Option-cases (char_digit c)) [
          | inl foreign ↦ rw (foreign, a2b_base64) (a2b_base64-OptionBytes q rest h)
          | inr (d, digit) ↦
              let small = char_digit-lt c d digit in
              rw (digit, a2b_base64)
                (emit-OptionBytes (push_digit q d).0 _ (λ b e. push_digit-lt q d b small h e)
                  (a2b_base64-OptionBytes (push_digit q d).1 rest (push_digit-carries q d small)))
        ])
]

b64u_decode-OptionBytes : (s : Text) → OptionBytes (b64u_decode s)
unfolding b64u_decode
b64u_decode-OptionBytes s = elim (Bool-cases (is_ascii s)) [
  | inl ascii ↦ rw ascii (a2b_base64-OptionBytes fresh_quad _ refl)
  | inr beyond ↦ rw beyond tt
]

pub b64u_decode-Bytes : (s : Text) (b : List ℕ) → b64u_decode s ≡ some b → Bytes b
b64u_decode-Bytes s b e = subst OptionBytes e (b64u_decode-OptionBytes s)
