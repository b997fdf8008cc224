-- ===== src/Settlement/Schema/Migrated.antt =====
-- migrations/versions: the migration builds the declared schema beside what was there, and takes it
-- away again.
use mesh_settle.Prelude.{◌≡◌, refl, false, some, List, [], ◌∷◌, ◌++◌, Text, codes, text_eq}
use mathlib.Core.List.{Perm, perm_append_comm}
use mathlib.Core.List.Perm
use mesh_settle.Settlement.Schema.{
  Schema, Table, Index, Constraint, has_table, has_index, remove_table, remove_index, without_table,
  create_table, create_index, drop_index, drop_table, rejected_packets_name, settlements_name,
  migrated_rejected_packets, migrated_settlements, upgrade, downgrade,
}
use mesh_settle.Settlement.Schema.Declared.{
  declared_settlements, declared_settlements_indexes, declared_rejected_packets,
  declared_rejected_packets_indexes,
}

-- No index of the table is there.
abbrev NoIndexOf : Text → List Index → Type 0
NoIndexOf name rest = without_table name rest ≡ rest

-- A schema in which the names of the migration are free.
pub record Free (s : Schema) : Type 0 where
  pub settlements : has_table settlements_name s.tables ≡ false
  pub rejected_packets : has_table rejected_packets_name s.tables ≡ false
  pub settled_at : has_index (codes "ix_settlements_settled_at") s.indexes ≡ false
  pub payer_id : has_index (codes "ix_settlements_payer_id") s.indexes ≡ false
  pub reason : has_index (codes "ix_rejected_packets_reason") s.indexes ≡ false
  pub rejected_at : has_index (codes "ix_rejected_packets_rejected_at") s.indexes ≡ false
  pub no_settlements_index : NoIndexOf settlements_name s.indexes
  pub no_rejected_packets_index : NoIndexOf rejected_packets_name s.indexes

abbrev migrated : Schema → Schema
migrated s = record {
  tables = migrated_settlements ∷ migrated_rejected_packets ∷ s.tables;
  indexes =
      record {
        name = codes "ix_settlements_settled_at";
        table = settlements_name;
        column = codes "settled_at";
      }
      ∷ record {
        name = codes "ix_settlements_payer_id";
        table = settlements_name;
        column = codes "payer_id";
      }
      ∷ record {
        name = codes "ix_rejected_packets_rejected_at";
        table = rejected_packets_name;
        column = codes "rejected_at";
      }
      ∷ record {
        name = codes "ix_rejected_packets_reason";
        table = rejected_packets_name;
        column = codes "reason";
      }
      ∷ s.indexes;
}

upgrade-migrated : (s : Schema) → Free s → upgrade s ≡ some (migrated s)
unfolding upgrade create_table create_index has_table has_index text_eq
upgrade-migrated s free =
    rw
      (
        free.rejected_packets, free.reason, free.rejected_at, free.settlements, free.payer_id,
        free.settled_at,
      )
      refl

downgrade-migrated : (s : Schema) → Free s → downgrade (migrated s) ≡ some s
unfolding downgrade drop_index drop_table has_table has_index remove_table remove_index
    without_table text_eq
downgrade-migrated s free = rw (free.no_settlements_index, free.no_rejected_packets_index) refl

-- A table with the same columns, and the same constraints in any order.
pub record SameTable (t u : Table) : Type 0 where
  pub named : t.name ≡ u.name
  pub columns : t.columns ≡ u.columns
  pub constraints : Perm t.constraints u.constraints

-- What the migration does to a schema and undoes.
pub record Migration (s t : Schema) : Type 0 where
  pub upgraded : upgrade s ≡ some t
  pub settlements : Table
  pub rejected_packets : Table
  pub tables : t.tables ≡ settlements ∷ rejected_packets ∷ s.tables
  pub settlements_declared : SameTable settlements declared_settlements
  pub rejected_packets_declared : SameTable rejected_packets declared_rejected_packets
  pub added : List Index
  pub indexes : t.indexes ≡ added ++ s.indexes
  pub indexes_declared :
      Perm added (declared_settlements_indexes ++ declared_rejected_packets_indexes)
  pub downgraded : downgrade t ≡ some s

checks_last : (a b c d e : Constraint) → Perm (a ∷ b ∷ c ∷ d ∷ e ∷ []) (c ∷ d ∷ e ∷ a ∷ b ∷ [])
checks_last a b c d e = perm_append_comm (a ∷ b ∷ []) (c ∷ d ∷ e ∷ [])

-- In a schema in which its names are free and no index is on tables of these names, the migration
-- adds the two tables with the columns and the constraints that the mapped classes declare, and
-- their indexes, and changes nothing else; its downgrade gives back the schema as it was.
pub upgrade-Migration : (s : Schema) → Free s → (t : Schema) × Migration s t
upgrade-Migration s free = (
  migrated s,
  record {
    upgraded = upgrade-migrated s free;
    settlements = migrated_settlements;
    rejected_packets = migrated_rejected_packets;
    tables = refl;
    settlements_declared = record {
      named = refl;
      columns = refl;
      constraints = checks_last _ _ _ _ _;
    };
    rejected_packets_declared = record { named = refl; columns = refl; constraints = Perm.refl _ };
    added = _;
    indexes = refl;
    indexes_declared = Perm.cons _ (Perm.cons _ (Perm.swap _ _ []));
    downgraded = downgrade-migrated s free;
  },
)
