-- ===== src/Tools/Schema/Compare/Latest.antt =====
-- About the latest snapshot of a table (src/dag_doctor/tools/schema_inspect.py, _latest_snapshot).
use dag_doctor.Base.{
  ℕ, ◌≡◌, refl, ap, arith, Text, same_text_refl, Bool, true, false, ◌&&◌, Option, none, some, List,
  [], ◌∷◌, ◌++◌, map, keep, any,
}
use dag_doctor.Core.Json.{Json, get}
use dag_doctor.Tools.Schema.{
  ColumnSpec, dumped, SchemaSnapshot, shown, entry_of, stored_entry, stored_entries, live_entries,
}
use dag_doctor.Tools.Schema.Compare.{
  is_of, not_after, later_of, most_recent, latest_snapshot, has_any_snapshot, record_snapshot,
}

-- What was dumped is read back.
pub stored_entries-dumped :
    (py_str : Json → Text) (cs : List ColumnSpec)
    → stored_entries py_str (map dumped cs) ≡ live_entries cs
unfolding stored_entries stored_entry entry_of shown dumped get
stored_entries-dumped py_str [] = refl
stored_entries-dumped py_str (c ∷ cs) =
    ap (λ es. record { name = c.name; type_name = c.type_name } ∷ es)
      (stored_entries-dumped py_str cs)

-- The newest of the rows that pass a test is the one behind the others if none of those passes.
pub most_recent-only :
    (p : SchemaSnapshot → Bool) (rows : List SchemaSnapshot) (row : SchemaSnapshot)
    → any p rows ≡ false
    → p row ≡ true
    → most_recent (keep p (rows ++ row ∷ [])) ≡ some row
unfolding most_recent later_of
most_recent-only p [] row h k = rw k refl
most_recent-only p (other ∷ rows) row h k =
    let first : p other ≡ false = ground arith in
    let rest : any p rows ≡ false = ground arith in rw first (most_recent-only p rows row rest k)

pub any-weaken :
    (p q : SchemaSnapshot → Bool) (rows : List SchemaSnapshot)
    → any p rows ≡ false
    → any (λ row. p row && q row) rows ≡ false
any-weaken p q [] h = refl
any-weaken p q (row ∷ rows) h = ground (arith, any-weaken p q rows)

pub any-append_last :
    (p : SchemaSnapshot → Bool) (rows : List SchemaSnapshot) (row : SchemaSnapshot)
    → p row ≡ true
    → any p (rows ++ row ∷ []) ≡ true
any-append_last p [] row h = rw h refl
any-append_last p (other ∷ rows) row h = ground (arith, any-append_last p rows row h)

-- The last row of a table that had none is its latest.
pub latest_snapshot-record :
    (connection table : Text) (cs : List ColumnSpec) (moment : ℕ) (rows : List SchemaSnapshot)
    → has_any_snapshot connection table rows ≡ false
    → latest_snapshot connection table none (record_snapshot connection table cs moment rows)
      ≡ some (record {
        connection = connection;
        table_name = table;
        columns = map dumped cs;
        captured_at = moment;
      })
unfolding latest_snapshot has_any_snapshot record_snapshot
latest_snapshot-record connection table cs moment rows h =
    most_recent-only (λ row. is_of connection table row && not_after none row) rows _
      (any-weaken (is_of connection table) (not_after none) rows h)
      (rw (same_text_refl connection, same_text_refl table) refl)

pub latest_snapshot-never :
    (connection table : Text) (as_of : Option ℕ) (rows : List SchemaSnapshot)
    → has_any_snapshot connection table rows ≡ false
    → latest_snapshot connection table as_of rows ≡ none
unfolding latest_snapshot has_any_snapshot most_recent
latest_snapshot-never connection table as_of [] h = refl
latest_snapshot-never connection table as_of (row ∷ rows) h =
    let first : is_of connection table row ≡ false = ground arith in
    let rest : any (is_of connection table) rows ≡ false = ground arith in
    rw first (latest_snapshot-never connection table as_of rows rest)
