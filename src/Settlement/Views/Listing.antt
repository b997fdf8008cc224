-- ===== src/Settlement/Views/Listing.antt =====
-- services/settlement/app.py: what `list_settlements` gives.
use mesh_settle.Prelude.{
  ℕ, suc, zero, ℤ, pos, negsuc, List, [], ◌∷◌, take, length, leb, ◌≤◌, arith, inl, inr, Bool-cases,
}
use mesh_settle.Settlement.Db.{Settlement}
use mesh_settle.Settlement.Views.{capped, insert_latest, order_latest, list_settlements, Latest}

-- The order after one row more in front.
Latest-cons :
    (s t : Settlement) (rest : List Settlement)
    → t.settled_at ≤ s.settled_at
    → Latest (insert_latest t rest)
    → Latest (s ∷ rest)
    → Latest (s ∷ insert_latest t rest)
unfolding insert_latest
Latest-cons s t [] h l m = (h, tt)
Latest-cons s t (u ∷ rest) h l m = elim (Bool-cases (leb u.settled_at t.settled_at)) [
  | inl first ↦ rw first (h, (ground (arith, first), m.1))
  | inr after ↦ simp after (m.0, simp after at l)
]

insert_latest-Latest :
    (s : Settlement) (rows : List Settlement) → Latest rows → Latest (insert_latest s rows)
unfolding insert_latest
insert_latest-Latest s [] h = tt
insert_latest-Latest s (t ∷ rest) h = elim (Bool-cases (leb t.settled_at s.settled_at)) [
  | inl first ↦ rw first (ground (arith, first), h)
  | inr after ↦
      simp after (
        Latest-cons t s rest (ground (arith, after)) (insert_latest-Latest s rest (tail t rest h))
          h)
]
  where
    tail : (t : Settlement) (rest : List Settlement) → Latest (t ∷ rest) → Latest rest
    tail t [] h = tt
    tail t (u ∷ rest) h = h.1

order_latest-Latest : (rows : List Settlement) → Latest (order_latest rows)
unfolding order_latest
order_latest-Latest [] = tt
order_latest-Latest (s ∷ rest) = insert_latest-Latest s _ (order_latest-Latest rest)

take-Latest : (n : ℕ) (rows : List Settlement) → Latest rows → Latest (take n rows)
take-Latest zero rows h = tt
take-Latest (suc n) [] h = tt
take-Latest (suc zero) (s ∷ rest) h = tt
take-Latest (suc (suc n)) (s ∷ []) h = tt
take-Latest (suc (suc n)) (s ∷ t ∷ rest) h = (h.0, take-Latest (suc n) (t ∷ rest) h.1)

length-take : (n : ℕ) (rows : List Settlement) → length (take n rows) ≤ n
length-take zero rows = omega arith
length-take (suc n) [] = omega arith
length-take (suc n) (s ∷ rest) = omega (arith, length-take n rest)

capped_bound : (limit : ℤ) → capped limit ≤ 100
unfolding capped
capped_bound (negsuc n) = omega arith
capped_bound (pos n) = ground arith

-- Whatever the limit of the request, the listed settlements are ordered by their times, the latest
-- first, and there are at most 100 of them.
pub list_settlements-Latest :
    (limit : ℤ) (rows : List Settlement)
    → Latest (list_settlements limit rows) × (length (list_settlements limit rows) ≤ 100)
unfolding list_settlements
list_settlements-Latest limit rows = (
  take-Latest (capped limit) (order_latest rows) (order_latest-Latest rows),
  omega (arith, capped_bound limit, length-take (capped limit) (order_latest rows)),
)
