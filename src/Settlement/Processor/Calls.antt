-- ===== src/Settlement/Processor/Calls.antt =====
-- services/settlement: the calls on the two stores, each with what it does to them when its reply
-- arrives and when it does not.
use mesh_settle.Prelude.{ℕ, ◌≡◌, refl, inl, inr, ◌⊎◌, true, false, ◌∷◌, arith, Bool-cases}
use mesh_settle.Settlement.Db.{
  NewSettlement, Settlement, fits, keeps_constraints, insert_settlement,
}
use mesh_settle.Settlement.Effects.{
  integrity, other, Result, ok, err, add_settlement, World, Event, serve, take_call, pass,
}
use mesh_settle.Settlement.Effects.Post.{Lost, take_call_cases}

-- The row that is added for these values.
abbrev pub row : ℕ → ℕ → NewSettlement → Settlement
row id at v = record { id = id; settled_at = at; values = v }

-- The same rows, or one more with these values.
abbrev pub Grown : NewSettlement → World → World → Type 0
Grown v w u =
    (u.tables.settlements ≡ w.tables.settlements)
    ⊎ ((id : ℕ) × (at : ℕ) × (u.tables.settlements ≡ row id at v ∷ w.tables.settlements))

-- After the transaction of a settlement: one more row, or the same rows, or, where the reply is
-- lost, either. The keys stay.
abbrev pub Added : NewSettlement → World → Event → Result ℕ → World → Type 0
Added v w ev (ok id) u =
    (at : ℕ) × (u.tables.settlements ≡ row id at v ∷ w.tables.settlements)
    × (u.keys ≡ w.keys)
    × (keeps_constraints v w.tables.settlements ≡ true)
Added v w ev (err integrity) u =
    (u.tables.settlements ≡ w.tables.settlements)
    × (u.keys ≡ w.keys)
    × (keeps_constraints v w.tables.settlements ≡ false)
Added v w ev (err other) u = (fits v ≡ true → Lost ev) × (u.keys ≡ w.keys) × Grown v w u

insert-Added :
    (v : NewSettlement) (ev : Event) (w : World)
    → Added v w ev (serve ev (add_settlement v) w).0 (serve ev (add_settlement v) w).1
unfolding serve insert_settlement
insert-Added v ev w = elim (Bool-cases (fits v)) [
  | inl fit ↦ rw fit (elim (Bool-cases (keeps_constraints v w.tables.settlements)) [
    | inl kept ↦ rw kept (w.clock, refl, refl, kept)
    | inr broken ↦ rw broken (refl, refl, broken)
  ])
  | inr unfit ↦ rw unfit ((λ h. absurd (ground arith)), refl, inl refl)
]

insert_grows :
    (v : NewSettlement) (ev : Event) (w : World) → Grown v w (serve ev (add_settlement v) w).1
unfolding serve insert_settlement
insert_grows v ev w = elim (Bool-cases (fits v)) [
  | inl fit ↦ rw fit (elim (Bool-cases (keeps_constraints v w.tables.settlements)) [
    | inl kept ↦ rw kept (inr (w.tables.next_id, w.clock, refl))
    | inr broken ↦ rw broken (inl refl)
  ])
  | inr unfit ↦ rw unfit (inl refl)
]

pub add_settlement-Added :
    (v : NewSettlement) (ev : Event) (w : World)
    → Added v w ev (take_call ev (add_settlement v) w).0 (take_call ev (add_settlement v) w).1
add_settlement-Added v ev w =
    take_call_cases (add_settlement v) ev w (Added v w ev) (insert-Added v ev (pass ev.elapsed w))
      (λ l. ((λ h. l), refl, inl refl))
      (λ l. ((λ h. l), unfold serve in refl, insert_grows v ev (pass ev.elapsed w)))
