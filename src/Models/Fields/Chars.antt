-- ===== src/Models/Fields/Chars.antt =====
-- shared/models.py: what a test of every character of a text gives.
use mesh_settle.Prelude.{ℕ, ◌≡◌, refl, Bool, true, [], ◌∷◌, Text, All, arith}
use mesh_settle.Models.Fields.{all_chars}

-- What a Boolean test of all characters gives.
module _ (p : ℕ → Bool) where
  pub All-all_chars : (s : Text) → all_chars p s ≡ true → All (λ c. p c ≡ true) s
  unfolding all_chars
  All-all_chars [] h = tt
  All-all_chars (c ∷ s) h = (ground (arith, h), All-all_chars s (ground (arith, h)))

  pub all_chars-All : (s : Text) → All (λ c. p c ≡ true) s → all_chars p s ≡ true
  unfolding all_chars
  all_chars-All [] h = refl
  all_chars-All (c ∷ s) h = ground (arith, all_chars-All s h.1, h.0)
