-- ===== src/Settlement/Views.antt =====
-- services/settlement/app.py: the lookups of the read-only HTTP surface.
pub mod Listing
use mesh_settle.Prelude.{
  ℕ, ℤ, pos, negsuc, Option, none, some, Bool, List, [], ◌∷◌, Text, codes, take, length, leb, ltb,
  if◌then◌else◌, ◌≤◌, ◌≡◌, refl, arith,
}
use mesh_settle.Mesh.Relay.{Refusal}
use mesh_settle.Models.Codes.{malformed_payload}
use mesh_settle.Settlement.Db.{Settlement, get_settlement}

-- `max(1, min(limit, 100))`
unfoldable pub capped : ℤ → ℕ
capped (negsuc n) = 1
capped (pos n) = if ltb n 1 then 1 else if ltb 100 n then 100 else n

-- A row among rows that are ordered by their times, latest first; rows of one time may come in any
-- order, and here keep theirs.
unfoldable pub insert_latest : Settlement → List Settlement → List Settlement
insert_latest s [] = s ∷ []
insert_latest s (t ∷ rest) =
    let later = insert_latest s rest in
    if leb t.settled_at s.settled_at then s ∷ t ∷ rest else t ∷ later

unfoldable pub order_latest : List Settlement → List Settlement
unfolding insert_latest
order_latest [] = []
order_latest (s ∷ rest) = insert_latest s (order_latest rest)

-- `list_settlements`
unfoldable pub list_settlements : ℤ → List Settlement → List Settlement
unfolding capped order_latest
list_settlements limit rows = take (capped limit) (order_latest rows)

-- `read_settlement`: the row, or the answer 404.
pub data Found : Type 0 where
  found : Settlement → Found
  not_found : Refusal → Found

abbrev found_or_not : Option Settlement → Found
found_or_not (some s) = found s
found_or_not none = not_found (record {
  code = malformed_payload;
  detail = codes "no settlement for that idempotency key";
  http_status = 404;
})

unfoldable pub read_settlement : Text → List Settlement → Found
unfolding get_settlement
read_settlement key rows = found_or_not (get_settlement key rows)

-- The order of the listed rows.
abbrev pub Latest : List Settlement → Type 0
Latest [] = Unit
Latest (s ∷ []) = Unit
Latest (s ∷ t ∷ rest) = (t.settled_at ≤ s.settled_at) × Latest (t ∷ rest)
