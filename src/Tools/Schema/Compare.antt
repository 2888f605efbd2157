-- ===== src/Tools/Schema/Compare.antt =====
-- Comparing a live table with the latest stored snapshot (src/dag_doctor/tools/schema_inspect.py,
-- CompareSchemaSnapshot). What the warehouse reflects, the time and Python's `str` are parameters.
pub mod Latest
pub mod Baseline
use dag_doctor.Base.{
  ℕ, ltb, leb, String, Text, codes, same_text, Bool, true, false, ◌&&◌, Option, none, some, List,
  [], ◌∷◌, ◌++◌, map, keep, any, if◌then◌else◌,
}
use dag_doctor.Core.Json.{Json}
use dag_doctor.Tools.Sql.{TableRef, parse, qualified}
use dag_doctor.Tools.Schema.{
  ColumnSpec, dumped, SchemaSnapshot, SchemaDiff, stored_entries, live_entries, diff_entries,
  no_baseline, first_seen,
}

-- What a database connection does when a table is reflected: its columns, no such table, or an
-- exception of the connection.
pub data Reflected : Type 0 where
  columns : List ColumnSpec → Reflected
  no_table : Reflected
  unreachable : (error : Text) → Reflected

-- What a tool's `execute` comes to.
pub data Raised {ℓ} (A : Type ℓ) : Type ℓ where
  value : A → Raised A
  read_only_violation target_not_found : Raised A
  database_error : (error : Text) → Raised A

pub record SchemaSnapshotInput : Type 0 where
  pub connection : Text
  pub table : Text
  pub as_of : Option ℕ

abbrev pub is_of : Text → Text → SchemaSnapshot → Bool
is_of connection table row = same_text row.connection connection && same_text row.table_name table

abbrev pub not_after : Option ℕ → SchemaSnapshot → Bool
not_after none row = true
not_after (some moment) row = leb row.captured_at moment

-- Of two rows, the later; of rows of one moment, the first in the table's order.
unfoldable pub later_of : SchemaSnapshot → Option SchemaSnapshot → Option SchemaSnapshot
later_of row none = some row
later_of row (some other) = if ltb row.captured_at other.captured_at then some other else some row

-- `ORDER BY captured_at DESC LIMIT 1`
unfoldable pub most_recent : List SchemaSnapshot → Option SchemaSnapshot
unfolding later_of
most_recent [] = none
most_recent (row ∷ rows) = later_of row (most_recent rows)

-- `_latest_snapshot`
unfoldable pub latest_snapshot :
    Text → Text → Option ℕ → List SchemaSnapshot → Option SchemaSnapshot
unfolding most_recent
latest_snapshot connection table as_of rows =
    most_recent (keep (λ row. is_of connection table row && not_after as_of row) rows)

-- `_has_any_snapshot`
unfoldable pub has_any_snapshot : Text → Text → List SchemaSnapshot → Bool
has_any_snapshot connection table rows = any (is_of connection table) rows

-- `record_snapshot`
unfoldable pub record_snapshot :
    Text → Text → List ColumnSpec → ℕ → List SchemaSnapshot → List SchemaSnapshot
record_snapshot connection table current moment rows =
    rows
    ++ record {
      connection = connection;
      table_name = table;
      columns = map dumped current;
      captured_at = moment;
    }
      ∷ []

-- The rows of `schema_snapshots`, and what the call comes to.
pub record Compared : Type 0 where
  pub rows : List SchemaSnapshot
  pub outcome : Raised SchemaDiff

module _ (py_str : Json → Text) (reflect : Text → TableRef → Reflected) where
  unfoldable pub against :
      Text → Text → List ColumnSpec → ℕ → List SchemaSnapshot → Option SchemaSnapshot → Compared
  unfolding no_baseline first_seen
  against connection table current moment rows (some baseline) = record {
    rows = rows;
    outcome = value (
        diff_entries connection table baseline.captured_at (stored_entries py_str baseline.columns)
          (live_entries current));
  }
  against connection table current moment rows none =
      if has_any_snapshot connection table rows
      then record { rows = rows; outcome = value (no_baseline connection table) }
      else record {
        rows = record_snapshot connection table current moment rows;
        outcome = value (first_seen connection table);
      }

  unfoldable pub on_reflected :
      SchemaSnapshotInput → Text → Reflected → ℕ → List SchemaSnapshot → Compared
  unfolding against
  on_reflected request table (columns current) moment rows =
      against request.connection table current moment rows
        (latest_snapshot request.connection table request.as_of rows)
  on_reflected request table no_table moment rows = record {
    rows = rows;
    outcome = target_not_found;
  }
  on_reflected request table (unreachable error) moment rows = record {
    rows = rows;
    outcome = database_error error;
  }

  unfoldable pub on_table :
      SchemaSnapshotInput → Option TableRef → ℕ → List SchemaSnapshot → Compared
  unfolding on_reflected
  on_table request none moment rows = record { rows = rows; outcome = read_only_violation }
  on_table request (some ref) moment rows =
      on_reflected request (qualified ref) (reflect request.connection ref) moment rows

  -- `CompareSchemaSnapshot.execute`, at a moment.
  unfoldable pub execute : SchemaSnapshotInput → ℕ → List SchemaSnapshot → Compared
  unfolding on_table
  execute request moment rows = on_table request (parse request.table) moment rows
