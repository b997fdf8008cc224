-- ===== src/Keys/Pem.antt =====
-- shared/config.py, `normalize_pem`, and `_escape_pem` of shared/keygen.py and
-- scripts/bootstrap_env.py, which declare it alike.
use mesh_settle.Prelude.{◌≡◌, ◌≢◌, refl, sym, ◌∙◌, ap, [], ◌∷◌, ◌++◌, Text}
use mesh_settle.Keys.Strings.{
  strip, newline, escape_newlines, unescape_newlines, Plain, All-strip, unescape_newlines-Plain,
  unescape_newlines-escape, strip_twice,
}

unfoldable pub normalize_pem : Text → Text
normalize_pem [] = []
normalize_pem (c ∷ s) = strip (unescape_newlines (c ∷ s)) ++ newline ∷ []

unfoldable pub escape_pem : Text → Text
escape_pem pem = escape_newlines (strip pem)

-- The text of a PEM block in its normal form.
unfoldable pub normal_pem : Text → Text
normal_pem pem = strip pem ++ newline ∷ []

normalize_pem-cons :
    (s : Text) → s ≢ [] → normalize_pem s ≡ strip (unescape_newlines s) ++ newline ∷ []
unfolding normalize_pem
normalize_pem-cons [] some_text = absurd (some_text refl)
normalize_pem-cons (c ∷ s) some_text = refl

escape_newlines-Nonempty : (s : Text) → Plain s → s ≢ [] → escape_newlines s ≢ []
unfolding unescape_newlines
escape_newlines-Nonempty s plain some_text none =
    some_text (sym (unescape_newlines-escape s plain) ∙ ap unescape_newlines none)

-- However an env file's reader takes the escapes, as they are or as line breaks, the key is the same.
pub normalize_pem-escape_pem :
    (pem : Text)
    → Plain pem
    → strip pem ≢ []
    → (normalize_pem (escape_pem pem) ≡ normal_pem pem)
      × (normalize_pem (strip pem) ≡ normal_pem pem)
unfolding escape_pem normal_pem
normalize_pem-escape_pem pem plain some_text =
    let inside = All-strip _ pem plain in
    (
      normalize_pem-cons (escape_newlines (strip pem))
            (escape_newlines-Nonempty (strip pem) inside some_text)
          ∙ ap (λ t. strip t ++ newline ∷ []) (unescape_newlines-escape (strip pem) inside)
          ∙ ap (λ t. t ++ newline ∷ []) (strip_twice pem),
      normalize_pem-cons (strip pem) some_text
          ∙ ap (λ t. strip t ++ newline ∷ []) (unescape_newlines-Plain (strip pem) inside)
          ∙ ap (λ t. t ++ newline ∷ []) (strip_twice pem),
    )
