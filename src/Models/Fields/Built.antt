-- ===== src/Models/Fields/Built.antt =====
-- shared/models.py: what an empty list of errors says of a model that was built.
use mesh_settle.Prelude.{◌≡◌, refl, true, [], ◌∷◌, ◌++◌, Text, String, arith}
use mesh_settle.Models.Fields.{Errors, valid, built, is_identifier, identifier_errors}

pub nil_left : (xs ys : Errors) → xs ++ ys ≡ [] → xs ≡ []
nil_left [] ys e = refl
nil_left (x ∷ xs) ys e = absurd (ground (arith, e))

pub nil_right : (xs ys : Errors) → xs ++ ys ≡ [] → ys ≡ []
nil_right [] ys e = e
nil_right (x ∷ xs) ys e = absurd (ground (arith, e))

pub both_nil : (xs ys : Errors) → xs ++ ys ≡ [] → (xs ≡ []) × (ys ≡ [])
both_nil xs ys e = (nil_left xs ys e, nil_right xs ys e)

pub identifier_of_errors :
    (field : String) (s : Text) → identifier_errors field s ≡ [] → is_identifier s ≡ true
unfolding identifier_errors
identifier_of_errors field s e = ground (arith, e)

pub built_valid : {A : Type 0} (es : Errors) (a b : A) → built es a ≡ valid b → (es ≡ []) × (a ≡ b)
built_valid [] a b e = (refl, ground (arith, e))
built_valid (x ∷ es) a b e = absurd (ground (arith, e))
