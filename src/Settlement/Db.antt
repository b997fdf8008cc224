-- ===== src/Settlement/Db.antt =====
-- services/settlement/db.py: the two tables with their constraints, and the queries. A table is the
-- list of its rows, newest first.
pub mod Rows
use mesh_settle.Prelude.{
  ℕ, suc, ◌+◌, ◌^◌, Bool, true, false, not, ◌&&◌, ◌||◌, Option, none, some, List, [], ◌∷◌, Text,
  text_eq, take, length, leb, ltb, ◌==◌, if◌then◌else◌,
}
use mesh_settle.Models.Moment.{Moment}

-- The values of a new row of `settlements`.
pub record NewSettlement : Type 0 where
  pub idempotency_key : Text
  pub packet_id : ℕ
  pub sender_id : Text
  pub payer_id : Text
  pub payee_id : Text
  pub amount_minor : ℕ
  pub currency : Text
  pub packet_created_at : Moment
  pub hop_count : ℕ

-- `Settlement`: with what the database fills in, the id and the time.
pub record Settlement : Type 0 where
  pub id : ℕ
  pub settled_at : ℕ
  pub values : NewSettlement
  pub open values use *

-- `RejectedPacket`, its id left out, which nothing reads.
pub record RejectedPacket : Type 0 where
  pub idempotency_key : Option Text
  pub packet_id : Option ℕ
  pub reason : Text
  pub detail : Text
  pub rejected_at : Moment

pub record Tables : Type 0 where
  pub settlements : List Settlement
  pub next_id : ℕ
  pub rejected_packets : List RejectedPacket

unfoldable pub has_key : Text → List Settlement → Bool
has_key k [] = false
has_key k (s ∷ rest) = text_eq s.idempotency_key k || has_key k rest

unfoldable pub has_packet : ℕ → List Settlement → Bool
has_packet p [] = false
has_packet p (s ∷ rest) = s.packet_id == p || has_packet p rest

-- The widths of the columns: `String(80)`, `String(64)`, `String(3)`, `BigInteger`, `Integer`.
unfoldable pub fits : NewSettlement → Bool
fits v =
    leb (length v.idempotency_key) 80
    && (leb (length v.sender_id) 64
        && (leb (length v.payer_id) 64
            && (leb (length v.payee_id) 64
                && (leb (length v.currency) 3
                    && (ltb v.amount_minor (2 ^ 63) && ltb v.hop_count (2 ^ 31))))))

-- `uq_settlements_idempotency_key`, `uq_settlements_packet_id` and
-- `ck_settlements_amount_positive`; a number of hops is never negative.
unfoldable pub keeps_constraints : NewSettlement → List Settlement → Bool
unfolding has_key has_packet
keeps_constraints v rows =
    ltb 0 v.amount_minor
    && (not (has_key v.idempotency_key rows) && not (has_packet v.packet_id rows))

pub data Inserted : Type 0 where
  inserted : ℕ → Inserted
  integrity_error data_error : Inserted

-- The transaction that adds one settlement, at a time of the database's. The id is drawn before
-- the constraints are checked.
unfoldable pub insert_settlement : ℕ → NewSettlement → Tables → Inserted × Tables
insert_settlement at v t =
    if fits v
    then (if keeps_constraints v t.settlements
        then (
          inserted t.next_id,
          record t {
            settlements = record { id = t.next_id; settled_at = at; values = v } ∷ t.settlements;
            next_id = t.next_id + 1;
          },
        )
        else (integrity_error, record t { next_id = t.next_id + 1 }))
    else (data_error, t)

-- The transaction of `record_rejection`.
unfoldable pub insert_rejection : RejectedPacket → Tables → Tables
insert_rejection r t = record t { rejected_packets = r ∷ t.rejected_packets }

-- `get_settlement`
unfoldable pub get_settlement : Text → List Settlement → Option Settlement
get_settlement k [] = none
get_settlement k (s ∷ rest) = if text_eq s.idempotency_key k then some s else get_settlement k rest

-- `settlement_exists`
unfoldable pub settlement_exists : Text → List Settlement → Bool
unfolding get_settlement
settlement_exists k rows = elim (get_settlement k rows) [ none ↦ false | some _ ↦ true ]

unfoldable pub count_key : Text → List Settlement → ℕ
count_key k [] = 0
count_key k (s ∷ rest) = (if text_eq s.idempotency_key k then 1 else 0) + count_key k rest

-- `count_settlements`
unfoldable pub count_settlements : Option Text → List Settlement → ℕ
unfolding count_key
count_settlements none rows = length rows
count_settlements (some k) rows = count_key k rows

unfoldable pub count_reason : Text → List RejectedPacket → ℕ
count_reason r [] = 0
count_reason r (p ∷ rest) = (if text_eq p.reason r then 1 else 0) + count_reason r rest

-- `count_rejections`
unfoldable pub count_rejections : Option Text → List RejectedPacket → ℕ
unfolding count_reason
count_rejections none rows = length rows
count_rejections (some r) rows = count_reason r rows
