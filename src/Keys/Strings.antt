-- ===== src/Keys/Strings.antt =====
-- The methods of str that the handling of keys uses: `strip`, and `replace` for line breaks and
-- their escapes.
use mesh_settle.Prelude.{
  ℕ, ◌≡◌, ◌≢◌, refl, ◌∙◌, Bool, false, ◌&&◌, ◌||◌, inl, inr, [], ◌∷◌, Text, All, leb, ◌==◌,
  if◌then◌else◌, Bool-cases, arith, ap,
}

-- `str.isspace`, of a code point.
unfoldable pub is_space : ℕ → Bool
is_space c =
    leb 9 c && leb c 13
    || leb 28 c && leb c 32
    || c == 133
    || c == 160
    || c == 5760
    || leb 8192 c && leb c 8202
    || c == 8232
    || c == 8233
    || c == 8239
    || c == 8287
    || c == 12288

unfoldable pub lstrip : Text → Text
lstrip [] = []
lstrip (c ∷ s) = let rest = lstrip s in if is_space c then rest else c ∷ s

-- A character before a text that has no space at its end.
unfoldable pub before_stripped : ℕ → Text → Text
before_stripped c [] = if is_space c then [] else c ∷ []
before_stripped c (d ∷ rest) = c ∷ d ∷ rest

unfoldable pub rstrip : Text → Text
unfolding before_stripped
rstrip [] = []
rstrip (c ∷ s) = before_stripped c (rstrip s)

-- `s.strip()`
unfoldable pub strip : Text → Text
unfolding lstrip rstrip
strip s = rstrip (lstrip s)

abbrev pub newline : ℕ
newline = 10

abbrev pub backslash : ℕ
backslash = b'\\'

-- `s.replace("\n", "\\n")`
unfoldable pub escape_newlines : Text → Text
escape_newlines [] = []
escape_newlines (c ∷ s) =
    let rest = escape_newlines s in if c == newline then backslash ∷ b'n' ∷ rest else c ∷ rest

-- `s.replace("\\n", "\n")`
unfoldable pub unescape_newlines : Text → Text
unescape_newlines [] = []
unescape_newlines (c ∷ []) = c ∷ []
unescape_newlines (c ∷ d ∷ s) =
    let replaced = unescape_newlines s in
    let kept = unescape_newlines (d ∷ s) in
    if c == backslash && d == b'n' then newline ∷ replaced else c ∷ kept

-- A text without backslashes.
abbrev pub Plain : Text → Type 0
Plain = All (λ c. c ≢ backslash)

unescape_newlines-cons :
    (c : ℕ) (s : Text) → c ≢ backslash → unescape_newlines (c ∷ s) ≡ c ∷ unescape_newlines s
unfolding unescape_newlines
unescape_newlines-cons c [] plain = refl
unescape_newlines-cons c (d ∷ s) plain = ground arith

pub unescape_newlines-Plain : (s : Text) → Plain s → unescape_newlines s ≡ s
unfolding unescape_newlines
unescape_newlines-Plain [] plain = refl
unescape_newlines-Plain (c ∷ s) plain =
    unescape_newlines-cons c s plain.0 ∙ ap (λ t. c ∷ t) (unescape_newlines-Plain s plain.1)

pub unescape_newlines-escape : (s : Text) → Plain s → unescape_newlines (escape_newlines s) ≡ s
unfolding unescape_newlines escape_newlines
unescape_newlines-escape [] plain = refl
unescape_newlines-escape (c ∷ s) plain =
    let step = unescape_newlines-escape s plain.1 in
    let here = unescape_newlines-cons c (escape_newlines s) plain.0 in ground (arith, step, here)

-- What holds of every character still does after `strip`.
module _ (P : ℕ → Type 0) where
  All-lstrip : (s : Text) → All P s → All P (lstrip s)
  unfolding lstrip
  All-lstrip [] h = tt
  All-lstrip (c ∷ s) h = elim (Bool-cases (is_space c)) [
    | inl space ↦ rw space (All-lstrip s h.1)
    | inr other ↦ rw other h
  ]

  All-before : (c : ℕ) (s : Text) → P c → All P s → All P (before_stripped c s)
  unfolding before_stripped
  All-before c [] here rest = elim (Bool-cases (is_space c)) [
    | inl space ↦ rw space tt
    | inr other ↦ rw other (here, tt)
  ]
  All-before c (d ∷ s) here rest = (here, rest)

  All-rstrip : (s : Text) → All P s → All P (rstrip s)
  unfolding rstrip
  All-rstrip [] h = tt
  All-rstrip (c ∷ s) h = All-before c (rstrip s) h.0 (All-rstrip s h.1)

  pub All-strip : (s : Text) → All P s → All P (strip s)
  unfolding strip
  All-strip s h = All-rstrip (lstrip s) (All-lstrip s h)

-- A text whose first character, if it has one, is no space.
Begins : Text → Type 0
Begins [] = Unit
Begins (c ∷ s) = is_space c ≡ false

Begins-lstrip : (s : Text) → Begins (lstrip s)
unfolding Begins lstrip
Begins-lstrip [] = tt
Begins-lstrip (c ∷ s) = elim (Bool-cases (is_space c)) [
  | inl space ↦ rw space (Begins-lstrip s)
  | inr other ↦ rw other other
]

before_stripped-keeps : (c : ℕ) (s : Text) → is_space c ≡ false → before_stripped c s ≡ c ∷ s
unfolding before_stripped
before_stripped-keeps c [] other = rw other refl
before_stripped-keeps c (d ∷ s) other = refl

lstrip-rstrip : (s : Text) → Begins s → lstrip (rstrip s) ≡ rstrip s
unfolding Begins lstrip rstrip
lstrip-rstrip [] begins = refl
lstrip-rstrip (c ∷ s) begins = rw (before_stripped-keeps c (rstrip s) begins, begins) refl

before_stripped_twice :
    (c : ℕ) (s : Text) → rstrip s ≡ s → rstrip (before_stripped c s) ≡ before_stripped c s
unfolding before_stripped rstrip
before_stripped_twice c [] same = elim (Bool-cases (is_space c)) [
  | inl space ↦ rw space refl
  | inr other ↦ rw (other, other) refl
]
before_stripped_twice c (d ∷ s) same = rw same refl

rstrip_twice : (s : Text) → rstrip (rstrip s) ≡ rstrip s
unfolding rstrip
rstrip_twice [] = refl
rstrip_twice (c ∷ s) = before_stripped_twice c (rstrip s) (rstrip_twice s)

pub strip_twice : (s : Text) → strip (strip s) ≡ strip s
unfolding strip
strip_twice s = ap rstrip (lstrip-rstrip (lstrip s) (Begins-lstrip s)) ∙ rstrip_twice (lstrip s)
