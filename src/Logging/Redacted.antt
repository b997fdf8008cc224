-- ===== src/Logging/Redacted.antt =====
-- shared/logging.py: what `_redact_secrets` promises of a log entry.
use mesh_settle.Prelude.{
  ◌≡◌, refl, sym, inl, inr, ◌⊎◌, ap, ◌∙◌, true, List, [], ◌∷◌, ◌++◌, Text, Bool-cases, arith,
  ==_iff, subst,
}
use mesh_settle.Logging.{
  redact_key_markers, redacted, starts_with, contains, any_in, redact_secrets,
}

-- The marker stands somewhere in the text.
abbrev pub Within : Text → Text → Type 0
Within marker s = (before after : Text) × (s ≡ before ++ marker ++ after)

abbrev pub AnyWithin : List Text → Text → Type 0
AnyWithin [] s = ⊥
AnyWithin (marker ∷ markers) s = Within marker s ⊎ AnyWithin markers s

starts_with-append : (m after : Text) → starts_with m (m ++ after) ≡ true
unfolding starts_with
starts_with-append [] after = refl
starts_with-append (c ∷ m) after = ground (arith, starts_with-append m after)

starts_with_sound : (m s : Text) → starts_with m s ≡ true → (after : Text) × (s ≡ m ++ after)
unfolding starts_with
starts_with_sound [] s h = (s, refl)
starts_with_sound (c ∷ m) (d ∷ s) h =
    let same = (==_iff c d).0 (ground arith) in
    let rest = starts_with_sound m s (ground arith) in
    (rest.0, ap (λ x. x ∷ s) (sym same) ∙ ap (λ t. c ∷ t) rest.1)
starts_with_sound (c ∷ m) [] h = ground arith

contains-here : (m s : Text) → starts_with m s ≡ true → contains m s ≡ true
unfolding contains
contains-here m [] h = h
contains-here m (c ∷ s) h = ground (arith, h)

contains-append : (m before after : Text) → contains m (before ++ m ++ after) ≡ true
unfolding contains starts_with
contains-append m [] after = contains-here m (m ++ after) (starts_with-append m after)
contains-append m (c ∷ before) after = ground (arith, contains-append m before after)

contains_sound : (m s : Text) → contains m s ≡ true → Within m s
unfolding contains
contains_sound m [] h = let rest = starts_with_sound m [] h in ([], rest.0, rest.1)
contains_sound m (c ∷ s) h = elim (Bool-cases (starts_with m (c ∷ s))) [
  | inl here ↦ let rest = starts_with_sound m (c ∷ s) here in ([], rest.0, rest.1)
  | inr not_here ↦
      let rest = contains_sound m s (ground arith) in (c ∷ rest.0, rest.1, ap (λ t. c ∷ t) rest.2)
]

any_in_sound : (ms : List Text) (s : Text) → any_in ms s ≡ true → AnyWithin ms s
unfolding any_in
any_in_sound [] s h = ground arith
any_in_sound (m ∷ ms) s h = elim (Bool-cases (contains m s)) [
  | inl here ↦ inl (contains_sound m s here)
  | inr not_here ↦ inr (any_in_sound ms s (ground arith))
]

any_in_complete : (ms : List Text) (s : Text) → AnyWithin ms s → any_in ms s ≡ true
unfolding any_in
any_in_complete (m ∷ ms) s (inl (before, after, e)) =
    let found = subst (λ t. contains m t ≡ true) (sym e) (contains-append m before after) in
    ground arith
any_in_complete (m ∷ ms) s (inr later) = let found = any_in_complete ms s later in ground arith
any_in_complete [] s h = absurd h

module _ {ℓ} (A : Type ℓ) (of_text : Text → A) (lower : Text → Text) where
  -- A value is hidden exactly where the lower-case key holds a marker, and nothing else changes.
  pub data Redacted : List (Text × A) → List (Text × A) → Type ℓ where
    no_entries : Redacted [] []
    hidden :
        (key : Text) (value : A) (rest shown : List (Text × A))
        → AnyWithin redact_key_markers (lower key)
        → Redacted rest shown
        → Redacted ((key, value) ∷ rest) ((key, of_text redacted) ∷ shown)
    unchanged :
        (key : Text) (value : A) (rest shown : List (Text × A))
        → (AnyWithin redact_key_markers (lower key) → ⊥)
        → Redacted rest shown
        → Redacted ((key, value) ∷ rest) ((key, value) ∷ shown)

  -- Redacting a log entry keeps its keys and their order, hides the value of a key exactly if one
  -- of the markers stands somewhere in the lower-case key, and leaves every other value as it is.
  pub redact_secrets-Redacted :
      (event : List (Text × A)) → Redacted event (redact_secrets A of_text lower event)
  unfolding redact_secrets
  redact_secrets-Redacted [] = no_entries
  redact_secrets-Redacted ((key, value) ∷ rest) =
      elim (Bool-cases (any_in redact_key_markers (lower key))) [
        | inl marked ↦ rw marked (
            hidden key value rest _ (any_in_sound redact_key_markers (lower key) marked)
              (redact_secrets-Redacted rest))
        | inr unmarked ↦ rw unmarked (
            unchanged key value rest _
              (λ h. let found = any_in_complete redact_key_markers (lower key) h in ground arith)
              (redact_secrets-Redacted rest))
      ]
