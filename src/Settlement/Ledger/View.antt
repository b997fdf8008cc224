-- ===== src/Settlement/Ledger/View.antt =====
-- services/settlement/db.py: the rows of `settlements` seen as a ledger.
use mesh_settle.Prelude.{
  ℕ, ◌≡◌, refl, inl, inr, ◌⊎◌, true, false, Option, none, some, List, [], ◌∷◌, Text, text_eq,
  if◌then◌else◌, Bool-cases, arith,
}
use mesh_settle.Settlement.Db.{
  NewSettlement, Settlement, Tables, has_key, has_packet, fits, keeps_constraints,
  insert_settlement, get_settlement,
}
use mesh_settle.Settlement.Ledger.{Ledger, empty_ledger, enter, Enters, entered}

abbrev pub values_of : Option Settlement → Option NewSettlement
values_of none = none
values_of (some s) = some s.values

abbrev pub ledger_of : List Settlement → Ledger
ledger_of rows = record {
  paid = λ k. values_of (get_settlement k rows);
  has_packet = λ n. has_packet n rows;
}

pub ledger_of_nil : ledger_of [] ≡ empty_ledger
unfolding get_settlement has_packet
ledger_of_nil = refl

values_of-get_settlement :
    (k : Text) (s : Settlement) (rows : List Settlement)
    → values_of (get_settlement k (s ∷ rows)) ≡ (
        if text_eq s.values.idempotency_key k
        then some s.values
        else values_of (get_settlement k rows))
unfolding get_settlement
values_of-get_settlement k s rows = elim (Bool-cases (text_eq s.values.idempotency_key k)) [
  | inl hit ↦ rw hit refl
  | inr miss ↦ rw miss refl
]

ledger_of-cons :
    (s : Settlement) (rows : List Settlement)
    → ledger_of (s ∷ rows) ≡ enter s.values (ledger_of rows)
unfolding has_packet
ledger_of-cons s rows = λ i. record {
  paid = λ k. values_of-get_settlement k s rows i;
  has_packet = λ n. has_packet n (s ∷ rows);
}

values_of_new :
    (k : Text) (rows : List Settlement)
    → has_key k rows ≡ false
    → values_of (get_settlement k rows) ≡ none
unfolding has_key get_settlement
values_of_new k [] h = refl
values_of_new k (s ∷ rows) h = ground (arith, values_of_new k rows)

-- The two ways that the transaction of a settlement ends.
abbrev pub Entered : (NewSettlement → Type 0) → List Settlement → List Settlement → Type 0
Entered P rows rows' = (rows' ≡ rows) ⊎ Enters P (ledger_of rows) (ledger_of rows')

module _ (P : NewSettlement → Type 0) (v : NewSettlement) (allowed : P v) where
  add-Enters :
      (id at : ℕ) (rows : List Settlement)
      → keeps_constraints v rows ≡ true
      → Enters P
          (ledger_of rows)
          (ledger_of (record { id = id; settled_at = at; values = v } ∷ rows))
  unfolding keeps_constraints
  add-Enters id at rows h =
      entered v allowed (values_of_new v.idempotency_key rows (ground arith)) (ground arith)
        (ledger_of-cons (record { id = id; settled_at = at; values = v }) rows)

  pub insert-Entered :
      (at : ℕ) (t : Tables) → Entered P t.settlements (insert_settlement at v t).1.settlements
  unfolding insert_settlement
  insert-Entered at t = elim (Bool-cases (fits v)) [
    | inl fit ↦ rw fit (elim (Bool-cases (keeps_constraints v t.settlements)) [
      | inl kept ↦ rw kept (inr (add-Enters t.next_id at t.settlements kept))
      | inr broken ↦ rw broken (inl refl)
    ])
    | inr unfit ↦ rw unfit (inl refl)
  ]
