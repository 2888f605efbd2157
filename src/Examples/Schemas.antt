-- ===== src/Examples/Schemas.antt =====
-- A table one of whose columns was renamed since its first snapshot.
use dag_doctor.Base.{◌≡◌, refl, Text, codes, none, some, [], ◌∷◌, List, false, true}
use dag_doctor.Core.Json.{Json}
use dag_doctor.Tools.Sql.{
  TableRef, parse, qualified, split_dots, strip, lstrip, rstrip, is_identifier, rest_matches,
  ref_of,
}
use dag_doctor.Tools.Schema.{
  ColumnSpec, type_in, or_else, live_entries, likely_renames, paired, without, diff_entries,
}
use dag_doctor.Tools.Schema.Renames.{IsMaximalMatching, likely_renames-IsMaximalMatching}
use dag_doctor.Tools.Schema.Drift.{IsDiff, diff_entries-IsDiff}
use dag_doctor.Tools.Schema.Compare.{
  Reflected, columns, SchemaSnapshotInput, execute, has_any_snapshot,
}
use dag_doctor.Tools.Schema.Compare.Baseline.{
  IsDiffSince, Records, execute-Records, execute_again, latest,
}

abbrev column : Text → Text → ColumnSpec
column name type_name = record { name = name; type_name = type_name; nullable = true }

abbrev before : List ColumnSpec
before = column (codes "id") (codes "INTEGER") ∷ column (codes "cost") (codes "NUMERIC") ∷ []

abbrev after : List ColumnSpec
after = column (codes "id") (codes "INTEGER") ∷ column (codes "cost_usd") (codes "NUMERIC") ∷ []

rename_seen :
    likely_renames
      (live_entries before)
      (live_entries after)
      (codes "cost_usd" ∷ [])
      (codes "cost" ∷ [])
    ≡ record {
      likely_from = codes "cost";
      likely_to = codes "cost_usd";
      type_name = codes "NUMERIC";
    }
      ∷ []
unfolding likely_renames paired without type_in or_else
rename_seen = refl

likely_renames-IsMaximalMatching_example :
    IsMaximalMatching
      (live_entries before)
      (live_entries after)
      (codes "cost_usd" ∷ [])
      (codes "cost" ∷ [])
      (likely_renames
        (live_entries before)
        (live_entries after)
        (codes "cost_usd" ∷ [])
        (codes "cost" ∷ []))
likely_renames-IsMaximalMatching_example =
    likely_renames-IsMaximalMatching (live_entries before) (live_entries after)
      (codes "cost_usd" ∷ []) (codes "cost" ∷ []) (tt, tt) (tt, tt)

diff_entries-IsDiff_example :
    IsDiff (live_entries before) (live_entries after) (
      diff_entries
        (codes "warehouse")
        (codes "orders")
        7
        (live_entries before)
        (live_entries after))
diff_entries-IsDiff_example =
    diff_entries-IsDiff (live_entries before) (live_entries after) (codes "warehouse")
      (codes "orders") 7

abbrev request : SchemaSnapshotInput
request = record { connection = codes "warehouse"; table = codes "orders"; as_of = none }

abbrev orders : TableRef
orders = record { schema = none; name = codes "orders" }

request_parsed : parse request.table ≡ some orders
unfolding parse split_dots strip lstrip rstrip is_identifier rest_matches ref_of
request_parsed = refl

abbrev show : Json → Text
show j = []

abbrev at_first : Text → TableRef → Reflected
at_first connection ref = columns before

abbrev by_then : Text → TableRef → Reflected
by_then connection ref = columns after

never_seen : has_any_snapshot request.connection (qualified orders) [] ≡ false
unfolding has_any_snapshot
never_seen = refl

execute-Records_example :
    Records show at_first request 3 [] (execute show at_first request 3 []).rows
execute-Records_example = execute-Records show at_first request 3 []

execute_again_example :
    IsDiffSince before after 3
      (execute show by_then (latest request) 9 (execute show at_first request 3 []).rows).outcome
    × ((execute show by_then (latest request) 9 (execute show at_first request 3 []).rows).rows
        ≡ (execute show at_first request 3 []).rows)
execute_again_example =
    execute_again show at_first by_then request orders before after 3 9 [] request_parsed refl refl
      never_seen
