-- ===== src/Settlement/Schema.antt =====
-- services/settlement/db.py and migrations/versions: the schema that the mapped classes declare, and
-- the one that the migration builds. The operations are those of alembic, on the names of a schema:
-- `none` is an error of the database.
pub mod Declared
pub mod Migrated
use mesh_settle.Prelude.{
  ℕ, ◌>>=◌, String, Bool, true, false, ◌&&◌, ◌||◌, Option, none, some, List, [], ◌∷◌, Text, codes,
  text_eq, if◌then◌else◌,
}

pub data ColumnType : Type 0 where
  big_integer integer uuid timestamp_with_zone : ColumnType
  string : ℕ → ColumnType

pub record Column : Type 0 where
  pub name : Text
  pub type : ColumnType
  pub nullable : Bool
  pub autoincrement : Bool
  pub server_default : Option Text

pub data Constraint : Type 0 where
  primary_key : Text → Constraint
  unique : Text → Text → Constraint
  check : Text → Text → Constraint

pub record Table : Type 0 where
  pub name : Text
  pub columns : List Column
  pub constraints : List Constraint

pub record Index : Type 0 where
  pub name : Text
  pub table : Text
  pub column : Text

pub record Schema : Type 0 where
  pub tables : List Table
  pub indexes : List Index

unfoldable pub has_table : Text → List Table → Bool
has_table name [] = false
has_table name (t ∷ rest) = text_eq t.name name || has_table name rest

unfoldable pub has_index : Text → List Index → Bool
has_index name [] = false
has_index name (i ∷ rest) = text_eq i.name name || has_index name rest

unfoldable pub remove_table : Text → List Table → List Table
remove_table name [] = []
remove_table name (t ∷ rest) =
    let others = remove_table name rest in if text_eq t.name name then rest else t ∷ others

unfoldable pub remove_index : Text → List Index → List Index
remove_index name [] = []
remove_index name (i ∷ rest) =
    let others = remove_index name rest in if text_eq i.name name then rest else i ∷ others

-- The indexes of a table go with it.
unfoldable pub without_table : Text → List Index → List Index
without_table name [] = []
without_table name (i ∷ rest) =
    let others = without_table name rest in if text_eq i.table name then others else i ∷ others

-- `op.create_table`
unfoldable pub create_table : Table → Schema → Option Schema
unfolding has_table
create_table t s =
    if has_table t.name s.tables then none else some (record s { tables = t ∷ s.tables })

-- `op.create_index`
unfoldable pub create_index : Index → Schema → Option Schema
unfolding has_table has_index
create_index i s =
    if has_index i.name s.indexes
    then none
    else if has_table i.table s.tables
    then some (record s { indexes = i ∷ s.indexes })
    else none

-- `op.drop_index`
unfoldable pub drop_index : Text → Schema → Option Schema
unfolding has_index remove_index
drop_index name s =
    if has_index name s.indexes
    then some (record s { indexes = remove_index name s.indexes })
    else none

-- `op.drop_table`
unfoldable pub drop_table : Text → Schema → Option Schema
unfolding has_table remove_table without_table
drop_table name s =
    if has_table name s.tables
    then some
        (record { tables = remove_table name s.tables; indexes = without_table name s.indexes })
    else none

abbrev pub column : Text → ColumnType → Column
column name type = record {
  name = name;
  type = type;
  nullable = false;
  autoincrement = false;
  server_default = none;
}

abbrev pub id_column : Column
id_column = record (column (codes "id") big_integer) { autoincrement = true }

abbrev pub nullable_column : Text → ColumnType → Column
nullable_column name type = record (column name type) { nullable = true }

abbrev pub now_column : Text → Column
now_column name = record (column name timestamp_with_zone) { server_default = some (codes "now()") }

abbrev pub rejected_packets_name : Text
rejected_packets_name = codes "rejected_packets"

abbrev pub settlements_name : Text
settlements_name = codes "settlements"

-- The tables of the migration.
abbrev pub migrated_rejected_packets : Table
migrated_rejected_packets = record {
  name = rejected_packets_name;
  columns =
      id_column
      ∷ nullable_column (codes "idempotency_key") (string 80)
      ∷ nullable_column (codes "packet_id") uuid
      ∷ column (codes "reason") (string 32)
      ∷ column (codes "detail") (string 256)
      ∷ now_column (codes "rejected_at")
      ∷ [];
  constraints = primary_key (codes "id") ∷ [];
}

abbrev pub migrated_settlements : Table
migrated_settlements = record {
  name = settlements_name;
  columns =
      id_column
      ∷ column (codes "idempotency_key") (string 80)
      ∷ column (codes "packet_id") uuid
      ∷ column (codes "sender_id") (string 64)
      ∷ column (codes "payer_id") (string 64)
      ∷ column (codes "payee_id") (string 64)
      ∷ column (codes "amount_minor") big_integer
      ∷ column (codes "currency") (string 3)
      ∷ column (codes "packet_created_at") timestamp_with_zone
      ∷ now_column (codes "settled_at")
      ∷ column (codes "hop_count") integer
      ∷ [];
  constraints =
      check (codes "ck_settlements_amount_positive") (codes "amount_minor > 0")
      ∷ check (codes "ck_settlements_hop_count_non_negative") (codes "hop_count >= 0")
      ∷ primary_key (codes "id")
      ∷ unique (codes "uq_settlements_idempotency_key") (codes "idempotency_key")
      ∷ unique (codes "uq_settlements_packet_id") (codes "packet_id")
      ∷ [];
}

abbrev pub index : String → Text → String → Index
index name table column = record { name = codes name; table = table; column = codes column }

-- `upgrade`
unfoldable pub upgrade : Schema → Option Schema
unfolding create_table create_index
upgrade s = do
  a ← create_table migrated_rejected_packets s
  b ← create_index (index "ix_rejected_packets_reason" rejected_packets_name "reason") a
  c ← create_index (index "ix_rejected_packets_rejected_at" rejected_packets_name "rejected_at") b
  d ← create_table migrated_settlements c
  e ← create_index (index "ix_settlements_payer_id" settlements_name "payer_id") d
  create_index (index "ix_settlements_settled_at" settlements_name "settled_at") e

-- `downgrade`
unfoldable pub downgrade : Schema → Option Schema
unfolding drop_index drop_table
downgrade s = do
  a ← drop_index (codes "ix_settlements_settled_at") s
  b ← drop_index (codes "ix_settlements_payer_id") a
  c ← drop_table settlements_name b
  d ← drop_index (codes "ix_rejected_packets_rejected_at") c
  e ← drop_index (codes "ix_rejected_packets_reason") d
  drop_table rejected_packets_name e
