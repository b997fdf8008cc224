-- ===== src/Settlement/Schema/Declared.antt =====
-- services/settlement/db.py: the tables and the indexes that the two mapped classes declare.
use mesh_settle.Prelude.{List, [], ◌∷◌, codes}
use mesh_settle.Settlement.Schema.{
  Table, Index, column, id_column, nullable_column, now_column, index, string, uuid, big_integer,
  integer, timestamp_with_zone, primary_key, unique, check, settlements_name, rejected_packets_name,
}

-- `Settlement`
abbrev pub declared_settlements : Table
declared_settlements = record {
  name = settlements_name;
  columns =
      id_column
      ∷ column (codes "idempotency_key") (string 80)
      ∷ column (codes "packet_id") uuid
      ∷ column (codes "sender_id") (string 64)
      ∷ column (codes "payer_id") (string 64)
      ∷ column (codes "payee_id") (string 64)
      ∷ column (codes "amount_minor") big_integer
      ∷ column (codes "currency") (string 3)
      ∷ column (codes "packet_created_at") timestamp_with_zone
      ∷ now_column (codes "settled_at")
      ∷ column (codes "hop_count") integer
      ∷ [];
  constraints =
      primary_key (codes "id")
      ∷ unique (codes "uq_settlements_idempotency_key") (codes "idempotency_key")
      ∷ unique (codes "uq_settlements_packet_id") (codes "packet_id")
      ∷ check (codes "ck_settlements_amount_positive") (codes "amount_minor > 0")
      ∷ check (codes "ck_settlements_hop_count_non_negative") (codes "hop_count >= 0")
      ∷ [];
}

abbrev pub declared_settlements_indexes : List Index
declared_settlements_indexes =
    index "ix_settlements_settled_at" settlements_name "settled_at"
    ∷ index "ix_settlements_payer_id" settlements_name "payer_id"
    ∷ []

-- `RejectedPacket`
abbrev pub declared_rejected_packets : Table
declared_rejected_packets = record {
  name = rejected_packets_name;
  columns =
      id_column
      ∷ nullable_column (codes "idempotency_key") (string 80)
      ∷ nullable_column (codes "packet_id") uuid
      ∷ column (codes "reason") (string 32)
      ∷ column (codes "detail") (string 256)
      ∷ now_column (codes "rejected_at")
      ∷ [];
  constraints = primary_key (codes "id") ∷ [];
}

abbrev pub declared_rejected_packets_indexes : List Index
declared_rejected_packets_indexes =
    index "ix_rejected_packets_reason" rejected_packets_name "reason"
    ∷ index "ix_rejected_packets_rejected_at" rejected_packets_name "rejected_at"
    ∷ []
