-- ===== src/Crypto/Json/Reading.antt =====
-- A reader of JSON strings, which undoes `quote`.
use mesh_settle.Prelude.{
  true, false, ℕ, zero, suc, ◌+◌, ◌-◌, ◌*◌, ◌≡◌, refl, ap, sym, ◌∙◌, Option, some, none, [], ◌∷◌,
  ◌++◌, append_assoc, Text, arith, ltb, ◌==◌, if◌then◌else◌,
}
use mesh_settle.Crypto.Json.{hex_char, escape_char, escape, quote}

pub data Mode : Type 0 where
  normal escaped : Mode
  hex : ℕ → ℕ → Mode

-- The character that an escape letter stands for.
unescape : ℕ → ℕ
unescape c =
    if c == b'n'
    then 10
    else if c == b'r'
    then 13
    else if c == b't'
    then 9
    else if c == b'f'
    then 12
    else if c == b'b'
    then 8
    else c

unhex : ℕ → ℕ
unhex c = if ltb c 58 then c - 48 else c - 87

abbrev pub drop_one : Text → Text
drop_one [] = []
drop_one (c ∷ r) = r

push : ℕ → Option (Text × Text) → Option (Text × Text)
push c none = none
push c (some (s, rest)) = some (c ∷ s, rest)

-- Reads up to the closing quote: the string, and what follows it.
read : Mode → Text → Option (Text × Text)
read m [] = none
read normal (c ∷ r) = elim (c == 34) [
  | true ↦ some ([], r)
  | false ↦ elim (c == 92) [ true ↦ read escaped r | false ↦ push c (read normal r) ]
]
read escaped (c ∷ r) = elim (c == b'u') [
  | true ↦ read (hex 3 0) r
  | false ↦ push (unescape c) (read normal r)
]
read (hex zero acc) (c ∷ r) = push (acc * 16 + unhex c) (read normal r)
read (hex (suc k) acc) (c ∷ r) = read (hex k (acc * 16 + unhex c)) r

read-escape_char : (c : ℕ) (r : Text) → read normal (escape_char c ++ r) ≡ push c (read normal r)
unfolding read escape_char hex_char unescape unhex
read-escape_char c r = ground arith

read-escape : (s rest : Text) → read normal (escape s ++ 34 ∷ rest) ≡ some (s, rest)
unfolding escape
read-escape [] rest = unfold read in refl
read-escape (c ∷ s) rest =
    rw (append_assoc, read-escape_char, read-escape s rest) (unfold push in refl)

some_pair_injective :
    (s t r r' : Text)
    → ◌≡◌ {A = Option (Text × Text)} (some (s, r)) (some (t, r'))
    → (s ≡ t) × (r ≡ r')
some_pair_injective s t r r' e = (ground arith, ground arith)

read_quoted : (s r : Text) → read normal (drop_one (quote s ++ r)) ≡ some (s, r)
unfolding quote
read_quoted s r = rw append_assoc (read-escape s r)

-- A quoted string can be told from what follows it.
pub quote-append_injective : (s t r r' : Text) → quote s ++ r ≡ quote t ++ r' → (s ≡ t) × (r ≡ r')
quote-append_injective s t r r' e =
    some_pair_injective s t r r'
      (sym (read_quoted s r) ∙ ap (λ (x : Text). read normal (drop_one x)) e ∙ read_quoted t r')
