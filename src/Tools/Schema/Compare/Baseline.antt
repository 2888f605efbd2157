-- ===== src/Tools/Schema/Compare/Baseline.antt =====
-- About the snapshots that comparisons record and read (src/dag_doctor/tools/schema_inspect.py,
-- CompareSchemaSnapshot.execute).
use dag_doctor.Base.{
  ℕ, ◌≡◌, refl, inl, inr, Bool-cases, Option-cases, Text, false, Option, none, some, List,
}
use dag_doctor.Core.Json.{Json}
use dag_doctor.Tools.Sql.{TableRef, parse, qualified}
use dag_doctor.Tools.Schema.{
  ColumnSpec, Entry, SchemaSnapshot, SchemaDiff, live_entries, diff_entries,
}
use dag_doctor.Tools.Schema.Drift.{IsDiff, diff_entries-IsDiff}
use dag_doctor.Tools.Schema.Compare.{
  Reflected, columns, no_table, unreachable, Raised, value, SchemaSnapshotInput, latest_snapshot,
  has_any_snapshot, record_snapshot, against, on_reflected, on_table, execute,
}
use dag_doctor.Tools.Schema.Compare.Latest.{
  stored_entries-dumped, latest_snapshot-record, latest_snapshot-never,
}

module _ (py_str : Json → Text) (reflect : Text → TableRef → Reflected) where
  -- What a call leaves of the rows: all of them, and one row more if its table has none.
  pub data Records (request : SchemaSnapshotInput) (moment : ℕ) (rows : List SchemaSnapshot)
      : List SchemaSnapshot → Type 0 where
    unchanged : Records request moment rows rows
    first_of_table :
        (ref : TableRef) (cs : List ColumnSpec)
        → parse request.table ≡ some ref
        → reflect request.connection ref ≡ columns cs
        → has_any_snapshot request.connection (qualified ref) rows ≡ false
        → Records request moment rows
            (record_snapshot request.connection (qualified ref) cs moment rows)

  against-Records :
      (request : SchemaSnapshotInput) (ref : TableRef) (cs : List ColumnSpec) (moment : ℕ)
      (rows : List SchemaSnapshot) (baseline : Option SchemaSnapshot)
      → parse request.table ≡ some ref
      → reflect request.connection ref ≡ columns cs
      → Records request moment rows
          (against py_str reflect request.connection (qualified ref) cs moment rows baseline).rows
  unfolding against
  against-Records request ref cs moment rows (some baseline) p r = unchanged
  against-Records request ref cs moment rows none p r =
      elim (Bool-cases (has_any_snapshot request.connection (qualified ref) rows)) [
        | inl e ↦ rw e unchanged
        | inr e ↦ rw e (first_of_table ref cs p r e)
      ]

  on_reflected-Records :
      (request : SchemaSnapshotInput) (ref : TableRef) (answer : Reflected) (moment : ℕ)
      (rows : List SchemaSnapshot)
      → parse request.table ≡ some ref
      → reflect request.connection ref ≡ answer
      → Records request moment rows
          (on_reflected py_str reflect request (qualified ref) answer moment rows).rows
  unfolding on_reflected
  on_reflected-Records request ref (columns cs) moment rows p r =
      against-Records request ref cs moment rows
        (latest_snapshot request.connection (qualified ref) request.as_of rows) p r
  on_reflected-Records request ref no_table moment rows p r = unchanged
  on_reflected-Records request ref (unreachable error) moment rows p r = unchanged

  -- Whatever a comparison meets, it changes no stored snapshot: it leaves the rows as they are, or it
  -- appends one row with the columns that it has just read, and the latter only where the table that
  -- it names exists and has no snapshot at all, however old.
  pub execute-Records :
      (request : SchemaSnapshotInput) (moment : ℕ) (rows : List SchemaSnapshot)
      → Records request moment rows (execute py_str reflect request moment rows).rows
  unfolding execute on_table
  execute-Records request moment rows = elim (Option-cases (parse request.table)) [
    | inl e ↦ rw e unchanged
    | inr found ↦ rw found.1 (on_reflected-Records request found.0 _ moment rows found.1 refl)
  ]

-- A comparison of a table that is there, by what the snapshots say of it.
module _ (py_str : Json → Text) (reflect : Text → TableRef → Reflected)
    (request : SchemaSnapshotInput) (ref : TableRef) (parsed : parse request.table ≡ some ref)
    (cs : List ColumnSpec) (live : reflect request.connection ref ≡ columns cs) where
  execute-live :
      (moment : ℕ) (rows : List SchemaSnapshot)
      → execute py_str reflect request moment rows
        ≡ against py_str reflect request.connection
            (qualified ref)
            cs
            moment
            rows
            (latest_snapshot request.connection (qualified ref) request.as_of rows)
  unfolding execute on_table on_reflected
  execute-live moment rows = rw (parsed, live) refl

-- The request again, without a moment to look back to.
abbrev pub latest : SchemaSnapshotInput → SchemaSnapshotInput
latest request = record { connection = request.connection; table = request.table; as_of = none }

diff_entries-since :
    (connection table : Text) (moment : ℕ) (was now : List Entry)
    → (diff_entries connection table moment was now).baseline_captured_at ≡ some moment
unfolding diff_entries
diff_entries-since connection table moment was now = refl

-- What a later comparison finds: the difference from the columns that the first one read.
pub record IsDiffSince (before now : List ColumnSpec) (moment : ℕ) (outcome : Raised SchemaDiff)
    : Type 0 where
  pub diff : SchemaDiff
  pub is_value : outcome ≡ value diff
  pub since : diff.baseline_captured_at ≡ some moment
  pub exact : IsDiff (live_entries before) (live_entries now) diff

module _ (py_str : Json → Text) (request : SchemaSnapshotInput) (ref : TableRef)
    (parsed : parse request.table ≡ some ref) (before now : List ColumnSpec) (moment next : ℕ)
    (rows : List SchemaSnapshot)
    (new : has_any_snapshot request.connection (qualified ref) rows ≡ false) where
  abbrev recorded : List SchemaSnapshot
  recorded = record_snapshot request.connection (qualified ref) before moment rows

  execute-first :
      (reflect : Text → TableRef → Reflected)
      → reflect request.connection ref ≡ columns before
      → (execute py_str reflect request moment rows).rows ≡ recorded
  unfolding against
  execute-first reflect r =
      let none_yet =
        latest_snapshot-never request.connection (qualified ref) request.as_of rows new in
      rw (execute-live py_str reflect request ref parsed before r moment rows, none_yet, new) refl

  execute-second :
      (later : Text → TableRef → Reflected)
      → later request.connection ref ≡ columns now
      → execute py_str later (latest request) next recorded ≡ record {
        rows = recorded;
        outcome = value (
            diff_entries request.connection
              (qualified ref)
              moment
              (live_entries before)
              (live_entries now));
      }
  unfolding against
  execute-second later l =
      rw
        (
          execute-live py_str later (latest request) ref parsed now l next recorded,
          latest_snapshot-record request.connection (qualified ref) before moment rows new,
          stored_entries-dumped py_str before,
        )
        refl

-- Where a table has no snapshot, a comparison records its columns, and the next comparison of the
-- table, at any later moment and without `as_of`, is a diff between those columns and the ones that
-- are there by then: it has drift exactly if a column or a type is different, and it records nothing.
pub execute_again :
    (py_str : Json → Text) (reflect later : Text → TableRef → Reflected)
    (request : SchemaSnapshotInput) (ref : TableRef) (before now : List ColumnSpec)
    (moment next : ℕ) (rows : List SchemaSnapshot)
    → parse request.table ≡ some ref
    → reflect request.connection ref ≡ columns before
    → later request.connection ref ≡ columns now
    → has_any_snapshot request.connection (qualified ref) rows ≡ false
    → let known = (execute py_str reflect request moment rows).rows in
      let again = execute py_str later (latest request) next known in
      IsDiffSince before now moment again.outcome × (again.rows ≡ known)
execute_again py_str reflect later request ref before now moment next rows p r l h =
    let first = execute-first py_str request ref p before now moment next rows h reflect r in
    let second = execute-second py_str request ref p before now moment next rows h later l in
    rw (first, second)
      (
        record {
          diff =
              diff_entries request.connection (qualified ref) moment (live_entries before)
                (live_entries now);
          is_value = refl;
          since =
              diff_entries-since request.connection (qualified ref) moment (live_entries before)
                (live_entries now);
          exact =
              diff_entries-IsDiff (live_entries before) (live_entries now) request.connection
                (qualified ref) moment;
        },
        refl,
      )
