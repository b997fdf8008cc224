-- ===== src/Logging.antt =====
-- shared/logging.py: `_redact_secrets`, the processor of log entries that hides the values of keys
-- whose names hold a marker. A value is of any type into which texts go.
pub mod Redacted
use mesh_settle.Prelude.{
  Bool, true, false, ◌&&◌, ◌||◌, List, [], ◌∷◌, Text, codes, ◌==◌, if◌then◌else◌,
}

-- `_REDACT_KEY_MARKERS`
abbrev pub redact_key_markers : List Text
redact_key_markers =
    codes "password"
    ∷ codes "passwd"
    ∷ codes "secret"
    ∷ codes "token"
    ∷ codes "credential"
    ∷ codes "private_key"
    ∷ codes "signing_key"
    ∷ codes "content_key"
    ∷ codes "encrypted_key"
    ∷ codes "pem"
    ∷ codes "authorization"
    ∷ codes "api_key"
    ∷ []

-- `REDACTED`
abbrev pub redacted : Text
redacted = codes "[redacted]"

unfoldable pub starts_with : Text → Text → Bool
starts_with [] s = true
starts_with (c ∷ m) [] = false
starts_with (c ∷ m) (d ∷ s) = c == d && starts_with m s

-- `marker in lowered`
unfoldable pub contains : Text → Text → Bool
unfolding starts_with
contains marker [] = starts_with marker []
contains marker (c ∷ s) = starts_with marker (c ∷ s) || contains marker s

-- `any(marker in lowered for marker in markers)`
unfoldable pub any_in : List Text → Text → Bool
unfolding contains
any_in [] lowered = false
any_in (marker ∷ markers) lowered = contains marker lowered || any_in markers lowered

-- `lower` is `str.lower`.
module _ {ℓ} (A : Type ℓ) (of_text : Text → A) (lower : Text → Text) where
  -- `_redact_secrets`, of the entries in the order of the dict.
  unfoldable pub redact_secrets : List (Text × A) → List (Text × A)
  unfolding any_in
  redact_secrets [] = []
  redact_secrets ((key, value) ∷ rest) =
      (if any_in redact_key_markers (lower key) then (key, of_text redacted) else (key, value))
      ∷ redact_secrets rest
