-- ===== src/Tests/Env.antt =====
-- A reader of env files, which keeps what it is required to keep, and a library of PEM texts.
use mesh_settle.Prelude.{
  ℕ, ◌≡◌, refl, ap, ◌∙◌, inl, inr, Bool, true, false, Option, none, some, List, [], ◌∷◌, ◌++◌, Text,
  text_eq, ◌==◌, if◌then◌else◌, Bool-cases, arith, append_assoc,
}
use mesh_settle.Keys.Bootstrap.{EnvLine, blank, comment, assign, quoted, line_text, render}
use mesh_settle.Keys.Bootstrap.Reader.{
  Reader, Reading, ReaderLaws, fits, all_fit, lookup, defines, is_name, is_name_char, is_bare_char,
  on_a_line,
}
use mesh_settle.Keys.Strings.{newline}
use mesh_settle.Models.Fields.{all_chars}

-- The lines of a text, each of which ends with a line break.
abbrev onto_first : ℕ → List Text → List Text
onto_first c [] = (c ∷ []) ∷ []
onto_first c (line ∷ lines) = (c ∷ line) ∷ lines

split_lines : Text → List Text
split_lines [] = []
split_lines (c ∷ s) =
    let rest = split_lines s in if c == newline then [] ∷ rest else onto_first c rest

-- What follows `name=`.
after_name : Text → Text → Option Text
after_name [] (c ∷ s) = if c == b'=' then some s else none
after_name (n ∷ name) (c ∷ s) = let rest = after_name name s in if c == n then rest else none
after_name name [] = none

without_last : Text → Text
without_last [] = []
without_last (c ∷ []) = []
without_last (c ∷ d ∷ s) = c ∷ without_last (d ∷ s)

abbrev unquote : Text → Text
unquote [] = []
unquote (c ∷ s) = if c == b'"' then without_last s else c ∷ s

abbrev map_option : Option Text → Option Text
map_option none = none
map_option (some s) = some (unquote s)

abbrev value_in : Text → Text → Option Text
value_in name line = map_option (after_name name line)

abbrev or_else : Option Text → Option Text → Option Text
or_else (some later) earlier = some later
or_else none earlier = earlier

last_value : Text → List Text → Option Text
last_value name [] = none
last_value name (line ∷ lines) = or_else (last_value name lines) (value_in name line)

unfoldable pub toy_reader : Reader
unfolding last_value split_lines after_name without_last
toy_reader text name = last_value name (split_lines text)

split_line :
    (line rest : Text)
    → all_chars on_a_line line ≡ true
    → split_lines (line ++ newline ∷ rest) ≡ line ∷ split_lines rest
unfolding split_lines all_chars
split_line [] rest h = refl
split_line (c ∷ line) rest h = elim (Bool-cases (c == newline)) [
  | inl break ↦ absurd (ground (arith, break, h))
  | inr other ↦ rw (other, split_line line rest (ground (arith, h))) refl
]

after_name-line :
    (name other value : Text)
    → all_chars is_name_char name ≡ true
    → all_chars is_name_char other ≡ true
    → after_name name (other ++ b'=' ∷ value) ≡ (if text_eq other name then some value else none)
unfolding after_name text_eq all_chars is_name_char
after_name-line [] [] value h k = refl
after_name-line [] (c ∷ other) value h k = ground (arith, k)
after_name-line (n ∷ name) [] value h k = ground (arith, h)
after_name-line (n ∷ name) (c ∷ other) value h k =
    let rest = after_name-line name other value (ground (arith, h)) (ground (arith, k)) in
    ground (arith, rest)

unquote-bare : (value : Text) → all_chars is_bare_char value ≡ true → unquote value ≡ value
unfolding all_chars is_bare_char
unquote-bare [] h = refl
unquote-bare (c ∷ s) h = ground (arith, h)

without_last-snoc : (s : Text) (c : ℕ) → without_last (s ++ c ∷ []) ≡ s
unfolding without_last
without_last-snoc [] c = refl
without_last-snoc (a ∷ []) c = refl
without_last-snoc (a ∷ b ∷ s) c = ap (λ t. a ∷ t) (without_last-snoc (b ∷ s) c)

-- What the reader finds for a line.
abbrev pub Found : Option EnvLine → Option Text → Type 0
Found none r = r ≡ none
Found (some (assign name value)) r = r ≡ some value
Found (some (quoted name value)) r = r ≡ some value
Found (some blank) r = ⊥
Found (some (comment s)) r = ⊥

name-chars : (name : Text) → is_name name ≡ true → all_chars is_name_char name ≡ true
name-chars [] h = absurd (ground (arith, h))
name-chars (c ∷ s) h = h

named_by :
    (b : Bool) (value : Text)
    → map_option (if b then some value else none) ≡ (if b then some (unquote value) else none)
named_by true value = refl
named_by false value = refl

by_name :
    (b : Bool) (line : EnvLine) (value : Text) (found : Option Text)
    → found ≡ (if b then some value else none)
    → (found ≡ some value → Found (some line) found)
    → Found (if b then some line else none) found
by_name true line value found e f = f e
by_name false line value found e f = e

-- The value on a line for that name, without its quotes.
value_in-line :
    (name other value shown : Text)
    → is_name name ≡ true
    → is_name other ≡ true
    → unquote value ≡ shown
    → value_in name (other ++ b'=' ∷ value) ≡ (if text_eq other name then some shown else none)
value_in-line name other value shown h k e =
    ap map_option (after_name-line name other value (name-chars name h) (name-chars other k))
    ∙ named_by (text_eq other name) value
    ∙ ap (λ v. if text_eq other name then some v else none) e

hash_first :
    (c : ℕ) (name s : Text) → is_name (c ∷ name) ≡ true → after_name (c ∷ name) (b'#' ∷ s) ≡ none
unfolding after_name all_chars is_name_char
hash_first c name s h = ground (arith, h)

not_a_name : (name s : Text) → is_name name ≡ true → value_in name (b'#' ∷ s) ≡ none
not_a_name [] s h = absurd (ground (arith, h))
not_a_name (c ∷ name) s h = ap map_option (hash_first c name s h)

nothing : (name : Text) → value_in name [] ≡ none
unfolding after_name
nothing [] = refl
nothing (c ∷ name) = refl

line-Found :
    (name : Text) (line : EnvLine)
    → is_name name ≡ true
    → fits line ≡ true
    → Found (if defines name line then some line else none) (value_in name (line_text line))
unfolding fits defines line_text
line-Found name blank h k = nothing name
line-Found name (comment s) h k = not_a_name name s h
line-Found name (assign other value) h k =
    by_name (text_eq other name) (assign other value) value _
      (value_in-line name other value value h (ground (arith, k))
        (unquote-bare value (ground (arith, k))))
      (λ e. e)
line-Found name (quoted other value) h k =
    by_name (text_eq other name) (quoted other value) value _
      (ap (value_in name) (append_assoc other (b'=' ∷ b'"' ∷ value) (b'"' ∷ []))
        ∙ value_in-line name other (b'"' ∷ value ++ b'"' ∷ []) value h (ground (arith, k))
            (without_last-snoc value b'"'))
      (λ e. e)

step :
    (later : Option EnvLine) (line : EnvLine) (b : Bool) (r value : Option Text)
    → Found later r
    → Found (if b then some line else none) value
    → Found
        (elim later [ some found ↦ some found | none ↦ if b then some line else none ])
        (or_else r value)
step none line b r value h k = rw h k
step (some (assign n v)) line b r value h k = rw h refl
step (some (quoted n v)) line b r value h k = rw h refl
step (some blank) line b r value h k = h
step (some (comment s)) line b r value h k = h

all_chars-append :
    (p : ℕ → Bool) (s t : Text)
    → all_chars p s ≡ true
    → all_chars p t ≡ true
    → all_chars p (s ++ t) ≡ true
unfolding all_chars
all_chars-append p [] t h k = k
all_chars-append p (c ∷ s) t h k =
    let rest = all_chars-append p s t (ground (arith, h)) k in ground (arith, h, rest)

name-on_a_line :
    (name : Text) → all_chars is_name_char name ≡ true → all_chars on_a_line name ≡ true
unfolding all_chars is_name_char
name-on_a_line [] h = refl
name-on_a_line (c ∷ s) h =
    let rest = name-on_a_line s (ground (arith, h)) in ground (arith, h, rest)

bare-on_a_line : (s : Text) → all_chars is_bare_char s ≡ true → all_chars on_a_line s ≡ true
unfolding all_chars is_bare_char
bare-on_a_line [] h = refl
bare-on_a_line (c ∷ s) h =
    let rest = bare-on_a_line s (ground (arith, h)) in ground (arith, h, rest)

fits-on_a_line : (line : EnvLine) → fits line ≡ true → all_chars on_a_line (line_text line) ≡ true
unfolding fits line_text all_chars
fits-on_a_line blank h = refl
fits-on_a_line (comment s) h = h
fits-on_a_line (assign name value) h =
    let front = name-on_a_line name (name-chars name (ground (arith, h))) in
    let back = bare-on_a_line value (ground (arith, h)) in
    all_chars-append on_a_line name (b'=' ∷ value) front back
fits-on_a_line (quoted name value) h =
    let front = name-on_a_line name (name-chars name (ground (arith, h))) in
    all_chars-append on_a_line (name ++ b'=' ∷ b'"' ∷ value) (b'"' ∷ [])
      (all_chars-append on_a_line name (b'=' ∷ b'"' ∷ value) front (ground (arith, h))) refl

pub render-Found :
    (lines : List EnvLine) (name : Text)
    → all_fit lines ≡ true
    → is_name name ≡ true
    → Found (lookup name lines) (toy_reader (render lines) name)
unfolding all_fit lookup render toy_reader last_value split_lines
render-Found [] name h k = refl
render-Found (line ∷ lines) name h k =
    let e = split_line (line_text line) (render lines) (fits-on_a_line line (ground (arith, h))) in
    let rest = render-Found lines name (ground (arith, h)) k in
    let here = line-Found name line k (ground (arith, h)) in
    rw e (step (lookup name lines) line (defines name line) _ _ rest here)

Found-Reading : (l : Option EnvLine) (r : Option Text) → Found l r → Reading l r
Found-Reading none r h = h
Found-Reading (some (assign name value)) r h = h
Found-Reading (some (quoted name value)) r h = inl h
Found-Reading (some blank) r h = absurd h
Found-Reading (some (comment s)) r h = absurd h

pub toy_reader-laws : ReaderLaws toy_reader
toy_reader-laws = record {
  reads = λ lines name h k. Found-Reading _ _ (render-Found lines name h k);
}
