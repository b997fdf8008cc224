-- ===== src/Settlement/Db/Rows.antt =====
-- services/settlement/db.py: what the constraints of `settlements` say of its rows.
use mesh_settle.Prelude.{
  ℕ, ◌+◌, ◌≤◌, ◌≡◌, refl, sym, inl, inr, true, false, List, [], ◌∷◌, Text, All, arith, text_eq,
  text_eq_refl, text_eq_sound, ◌==◌, if◌then◌else◌, Bool-cases,
}
use mesh_settle.Settlement.Db.{
  NewSettlement, Settlement, Tables, inserted, has_key, has_packet, fits, keeps_constraints,
  insert_settlement, get_settlement, settlement_exists, count_key,
}

unfoldable pub count_packet : ℕ → List Settlement → ℕ
count_packet p [] = 0
count_packet p (s ∷ rest) = (if s.packet_id == p then 1 else 0) + count_packet p rest

-- Each key and each packet id once, and every row with values that are allowed.
pub record Sound (P : NewSettlement → Type 0) (rows : List Settlement) : Type 0 where
  pub one_by_key : (k : Text) → count_key k rows ≤ 1
  pub one_by_packet : (n : ℕ) → count_packet n rows ≤ 1
  pub allowed : All (λ (s : Settlement). P s.values) rows

abbrev pub HasRow : List Settlement → Text → Type 0
HasRow rows k = has_key k rows ≡ true

pub has_key-count :
    (k : Text) (rows : List Settlement) → has_key k rows ≡ false → count_key k rows ≡ 0
unfolding has_key count_key
has_key-count k [] h = refl
has_key-count k (s ∷ rest) h = ground (arith, has_key-count k rest)

has_packet-count :
    (n : ℕ) (rows : List Settlement) → has_packet n rows ≡ false → count_packet n rows ≡ 0
unfolding has_packet count_packet
has_packet-count n [] h = refl
has_packet-count n (s ∷ rest) h = ground (arith, has_packet-count n rest)

pub count_of_row : (k : Text) (rows : List Settlement) → HasRow rows k → 1 ≤ count_key k rows
unfolding has_key count_key
count_of_row k [] h = absurd (ground arith)
count_of_row k (s ∷ rest) h = ground (arith, count_of_row k rest)

-- `settlement_exists` finds a row exactly where there is one with the key.
pub settlement_exists-has_key :
    (k : Text) (rows : List Settlement) → settlement_exists k rows ≡ has_key k rows
unfolding settlement_exists get_settlement has_key
settlement_exists-has_key k [] = refl
settlement_exists-has_key k (s ∷ rest) = ground (arith, settlement_exists-has_key k rest)

module _ (P : NewSettlement → Type 0) (v : NewSettlement) (allowed : P v) where
  one_key :
      (k : Text) (rows : List Settlement)
      → has_key v.idempotency_key rows ≡ false
      → count_key k rows ≤ 1
      → (if text_eq v.idempotency_key k then 1 else 0) + count_key k rows ≤ 1
  one_key k rows fresh h = elim (Bool-cases (text_eq v.idempotency_key k)) [
    | inl same ↦
        let count = has_key-count v.idempotency_key rows fresh in
        let equal = text_eq_sound v.idempotency_key k same in
        rw same (rw (sym equal) (rw count (omega arith)))
    | inr differs ↦ rw differs (omega (arith, h))
  ]

  one_packet :
      (n : ℕ) (rows : List Settlement)
      → has_packet v.packet_id rows ≡ false
      → count_packet n rows ≤ 1
      → (if v.packet_id == n then 1 else 0) + count_packet n rows ≤ 1
  one_packet n rows fresh h = ground (arith, has_packet-count v.packet_id rows fresh)

  add-Sound :
      (id at : ℕ) (rows : List Settlement)
      → keeps_constraints v rows ≡ true
      → Sound P rows
      → Sound P (record { id = id; settled_at = at; values = v } ∷ rows)
  unfolding keeps_constraints count_key count_packet
  add-Sound id at rows h s = record {
    one_by_key = λ k. one_key k rows (ground arith) (s.one_by_key k);
    one_by_packet = λ n. one_packet n rows (ground arith) (s.one_by_packet n);
    allowed = (allowed, s.allowed);
  }

  pub insert-Sound :
      (at : ℕ) (t : Tables)
      → Sound P t.settlements
      → Sound P (insert_settlement at v t).1.settlements
  unfolding insert_settlement
  insert-Sound at t s = elim (Bool-cases (fits v)) [
    | inl fit ↦ rw fit (elim (Bool-cases (keeps_constraints v t.settlements)) [
      | inl kept ↦ rw kept (add-Sound t.next_id at t.settlements kept s)
      | inr broken ↦ rw broken s
    ])
    | inr unfit ↦ rw unfit s
  ]

-- A row stays, and the row that was added is there.
pub insert-HasRow :
    (at : ℕ) (v : NewSettlement) (t : Tables) (k : Text)
    → HasRow t.settlements k
    → HasRow (insert_settlement at v t).1.settlements k
unfolding insert_settlement has_key
insert-HasRow at v t k h = ground arith

pub insert_adds :
    (at : ℕ) (v : NewSettlement) (t : Tables) (id : ℕ)
    → (insert_settlement at v t).0 ≡ inserted id
    → HasRow (insert_settlement at v t).1.settlements v.idempotency_key
unfolding insert_settlement has_key
insert_adds at v t id h = ground (arith, text_eq_refl v.idempotency_key)
