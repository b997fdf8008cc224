-- ===== src/Keys/Bootstrap/Reader.antt =====
-- Readers of env files, such as python-dotenv: what they are documented to find in a file of lines
-- of the kinds that scripts/bootstrap_env.py writes.
use mesh_settle.Prelude.{
  ℕ, ◌≡◌, ◌⊎◌, Bool, true, false, not, ◌&&◌, ◌||◌, Option, none, some, List, [], ◌∷◌, Text, text_eq,
  leb, ◌==◌, if◌then◌else◌,
}
use mesh_settle.Keys.Bootstrap.{EnvLine, blank, comment, assign, quoted, render}
use mesh_settle.Keys.Strings.{newline, unescape_newlines}
use mesh_settle.Keys.Library.{is_pem_char}
use mesh_settle.Models.Fields.{all_chars}

-- The characters of names, and those of a value without quotes.
unfoldable pub is_name_char : ℕ → Bool
is_name_char c = leb 65 c && leb c 90 || c == b'_'

unfoldable pub is_bare_char : ℕ → Bool
is_bare_char c = leb 65 c && leb c 90 || leb 97 c && leb c 122 || leb 45 c && leb c 58 || c == b'_'

abbrev pub is_name : Text → Bool
is_name [] = false
is_name (c ∷ s) = all_chars is_name_char (c ∷ s)

abbrev pub on_a_line : ℕ → Bool
on_a_line c = not (c == newline)

-- The lines that every reader takes alike, but for the escapes of line breaks between quotes.
unfoldable pub fits : EnvLine → Bool
unfolding all_chars
fits blank = true
fits (comment s) = all_chars on_a_line s
fits (assign name value) = is_name name && all_chars is_bare_char value
fits (quoted name value) =
    is_name name && all_chars on_a_line value && all_chars is_pem_char (unescape_newlines value)

unfoldable pub all_fit : List EnvLine → Bool
unfolding fits
all_fit [] = true
all_fit (line ∷ lines) = fits line && all_fit lines

unfoldable pub defines : Text → EnvLine → Bool
defines name (assign other value) = text_eq other name
defines name (quoted other value) = text_eq other name
defines name _ = false

-- The last line that gives the variable a value.
unfoldable pub lookup : Text → List EnvLine → Option EnvLine
unfolding defines
lookup name [] = none
lookup name (line ∷ lines) = elim (lookup name lines) [
  | some later ↦ some later
  | none ↦ if defines name line then some line else none
]

-- What a reader finds, where a line defines the variable and where none does.
abbrev pub Reading : Option EnvLine → Option Text → Type 0
Reading (some (assign name value)) found = found ≡ some value
Reading (some (quoted name value)) found =
    (found ≡ some value) ⊎ (found ≡ some (unescape_newlines value))
Reading _ found = found ≡ none

abbrev pub Reader : Type 0
Reader = Text → Text → Option Text

pub record ReaderLaws (read : Reader) : Type 0 where
  pub reads :
      (lines : List EnvLine) (name : Text)
      → all_fit lines ≡ true
      → is_name name ≡ true
      → Reading (lookup name lines) (read (render lines) name)
