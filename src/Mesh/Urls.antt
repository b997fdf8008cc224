-- ===== src/Mesh/Urls.antt =====
-- `str.rstrip("/")`, which the services apply to the URLs of their settings.
use mesh_settle.Prelude.{[], ◌∷◌, Text, ◌==◌, if◌then◌else◌}

-- The text without the slashes at its end.
unfoldable pub rstrip_slash : Text → Text
rstrip_slash [] = []
rstrip_slash (c ∷ s) =
    let rest = rstrip_slash s in
    elim rest [ [] ↦ (if c == b'/' then [] else c ∷ []) | d ∷ t ↦ c ∷ d ∷ t ]
