-- ===== src/Tools/Schema/Summary.antt =====
-- What a comparison says in a line (src/dag_doctor/tools/schema_inspect.py, SchemaDiff.summarise).
use dag_doctor.Base.{
  ℕ, Text, codes, decimal, length, not, Option, List, [], ◌∷◌, ◌++◌, if◌then◌else◌,
}
use dag_doctor.Tools.Schema.{RenamedColumn, SchemaDiff}

-- `SchemaDiff.summarise`; a moment is shown by a parameter.
renames_text : List RenamedColumn → Text
renames_text [] = []
renames_text (r ∷ []) = r.likely_from ++ (codes " appears to have been renamed to " ++ r.likely_to)
renames_text (r ∷ q ∷ rs) =
    r.likely_from
    ++ (codes " appears to have been renamed to "
        ++ (r.likely_to ++ (codes ", " ++ renames_text (q ∷ rs))))

drift_text : SchemaDiff → List RenamedColumn → Text
unfolding renames_text
drift_text d [] =
    d.table
    ++ (codes " drifted: "
        ++ (decimal (length d.added)
            ++ (codes " added, "
                ++ (decimal (length d.removed)
                    ++ (codes " removed, " ++ (decimal (length d.changed) ++ codes " changed"))))))
drift_text d (r ∷ rs) = d.table ++ (codes " drifted: " ++ renames_text (r ∷ rs))

unfoldable pub summarise : (Option ℕ → Text) → SchemaDiff → Text
unfolding drift_text
summarise show_time d =
    if d.baseline_created
    then codes "no prior snapshot of " ++ (d.table ++ codes "; recorded one for next time")
    else if d.baseline_too_recent
    then d.table
      ++ codes
          " has snapshots, but none from that far back; nothing to compare against without widening as_of"
    else if not d.has_drift
    then d.table ++ (codes " is unchanged since " ++ show_time d.baseline_captured_at)
    else drift_text d d.likely_renames
