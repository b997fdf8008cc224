-- ===== src/Mesh/Replies.antt =====
-- services/sender, services/mesh_relay and services/bridge: `_first_validation_message`, which the
-- three declare alike.
use mesh_settle.Prelude.{List, [], ◌∷◌, ◌++◌, Text, codes, text_eq, if◌then◌else◌}
use mesh_settle.Models.Fields.{Errors}
use mesh_settle.Settlement.Outcome.{join_dots}

unfoldable pub without_body : List Text → List Text
without_body [] = []
without_body (part ∷ parts) =
    let rest = without_body parts in if text_eq part (codes "body") then rest else part ∷ rest

abbrev pub or_body : Text → Text
or_body [] = codes "body"
or_body (c ∷ s) = c ∷ s

-- FastAPI puts "body" before the place of each error in a request's body.
unfoldable pub first_validation_message : Errors → Text
unfolding without_body join_dots
first_validation_message [] = codes "request body failed validation"
first_validation_message (first ∷ rest) =
    or_body (join_dots (without_body (codes "body" ∷ first.loc))) ++ codes ": " ++ first.msg
