-- ===== src/Settlement/Ledger.antt =====
-- services/settlement: what the service promises, as a ledger. It has at most one payment under each
-- key and each packet id, and its one operation enters a payment whose key and packet id are new.
-- The order of the rows, their ids and their times are forgotten.
pub mod View
pub mod Refinement
pub mod Payable
use mesh_settle.Prelude.{
  ℕ, ◌≡◌, Bool, true, false, ◌||◌, Option, none, some, Text, text_eq, ◌==◌, if◌then◌else◌,
}
use mesh_settle.Settlement.Db.{NewSettlement}

pub record Ledger : Type 0 where
  pub paid : Text → Option NewSettlement
  pub has_packet : ℕ → Bool

abbrev pub empty_ledger : Ledger
empty_ledger = record { paid = λ k. none; has_packet = λ n. false }

abbrev pub enter : NewSettlement → Ledger → Ledger
enter v l = record {
  paid = λ k. if text_eq v.idempotency_key k then some v else l.paid k;
  has_packet = λ n. v.packet_id == n || l.has_packet n;
}

-- The steps of a ledger whose payments are allowed.
pub data Enters (P : NewSettlement → Type 0) (l m : Ledger) : Type 0 where
  entered :
      (v : NewSettlement)
      → P v
      → l.paid v.idempotency_key ≡ none
      → l.has_packet v.packet_id ≡ false
      → m ≡ enter v l
      → Enters P l m

-- Any number of steps.
pub data Grows (P : NewSettlement → Type 0) (l : Ledger) : Ledger → Type 0 where
  same : Grows P l l
  more : (m n : Ledger) → Grows P l m → Enters P m n → Grows P l n
