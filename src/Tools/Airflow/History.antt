-- ===== src/Tools/Airflow/History.antt =====
-- The recent attempts at a task (src/dag_doctor/tools/airflow_metadata.py, GetDagRunHistory). A rate
-- is a numerator and a denominator, and the median is kept doubled, as the sum of the two middle ones.
pub mod Bounds
use dag_doctor.Base.{
  ℕ, zero, suc, ◌+◌, ◌-◌, ◌/◌, ◌==◌, leb, ltb, min, max, Text, Bool, true, false, ◌&&◌, Option,
  none, some, List, [], ◌∷◌, map, keep, length, take, get_elem?, if◌then◌else◌,
}
use dag_doctor.Core.Models.{ℤ, pos, negsuc}
use dag_doctor.Tools.Sql.{max_rows_ceiling}
use dag_doctor.Tools.Airflow.{TaskInstance, state_is}

pub record RunOutcome : Type 0 where
  pub run_id : Text
  pub state : Option Text
  pub try_number : ℕ
  pub duration_s : Option ℕ
  pub start_date : Option ℕ
  pub end_date : Option ℕ

pub record DagRunHistory : Type 0 where
  pub dag_id : Text
  pub task_id : Text
  pub runs : List RunOutcome
  pub failure_rate : ℕ × ℕ
  pub consecutive_failures : ℕ
  pub is_new_failure : Bool
  pub twice_median_duration : Option ℕ

abbrev pub run_failed : RunOutcome → Bool
run_failed run = state_is "failed" run.state

-- `_optional_int(value) or 1`
abbrev or_one : Option ℕ → ℕ
or_one none = 1
or_one (some zero) = 1
or_one (some (suc n)) = suc n

abbrev pub outcome_of : TaskInstance → RunOutcome
outcome_of row = record {
  run_id = row.run_id;
  state = row.state;
  try_number = or_one row.try_number;
  duration_s = row.duration;
  start_date = row.start_date;
  end_date = row.end_date;
}

-- The loop that breaks at the first run that did not fail.
unfoldable pub consecutive : List RunOutcome → ℕ
consecutive [] = 0
consecutive (run ∷ runs) = let rest = consecutive runs in if run_failed run then suc rest else 0

unfoldable pub durations : List RunOutcome → List ℕ
durations [] = []
durations (run ∷ runs) =
    let rest = durations runs in elim run.duration_s [ none ↦ rest | some d ↦ d ∷ rest ]

unfoldable pub place_number : ℕ → List ℕ → List ℕ
place_number x [] = x ∷ []
place_number x (y ∷ ys) = let rest = place_number x ys in if leb x y then x ∷ y ∷ ys else y ∷ rest

unfoldable pub sorted_numbers : List ℕ → List ℕ
unfolding place_number
sorted_numbers [] = []
sorted_numbers (x ∷ xs) = place_number x (sorted_numbers xs)

unfoldable pub sum_of : Option ℕ → Option ℕ → Option ℕ
sum_of (some a) (some b) = some (a + b)
sum_of _ _ = none

-- `statistics.median`, doubled.
unfoldable pub twice_median : List ℕ → Option ℕ
unfolding sorted_numbers sum_of
twice_median xs =
    let sorted = sorted_numbers xs in
    sum_of (get_elem? sorted ((length xs - 1) / 2)) (get_elem? sorted (length xs / 2))

abbrev pub failures : List RunOutcome → List RunOutcome
failures runs = keep run_failed runs

-- `_summarise_history`
unfoldable pub summarise_history : Text → Text → List RunOutcome → DagRunHistory
unfolding consecutive durations twice_median
summarise_history dag_id task_id runs =
    let failed = length (failures runs) in
    let total = length runs in
    let in_a_row = consecutive runs in
    record {
      dag_id = dag_id;
      task_id = task_id;
      runs = runs;
      failure_rate = if total == 0 then (0, 1) else (failed, total);
      consecutive_failures = in_a_row;
      is_new_failure = ltb 0 total && leb in_a_row 2 && leb failed (max 2 (total / 4));
      twice_median_duration = twice_median (durations runs);
    }

-- The rows that the query gives: none is skipped before `LIMIT min(limit, 100)`, and the executor
-- fetches the first ones of those. What a negative `LIMIT` does is the database's: with
-- `unlimited`, as in SQLite, it is none at all, and else, as in Postgres, the query fails.
unfoldable pub limited : Bool → ℤ → List TaskInstance → Option (List TaskInstance)
limited unlimited (pos n) rows = some (take max_rows_ceiling (take (min n 100) rows))
limited true (negsuc n) rows = some (take max_rows_ceiling rows)
limited false (negsuc n) rows = none

unfoldable pub on_rows : Text → Text → Option (List TaskInstance) → Option DagRunHistory
unfolding summarise_history
on_rows dag_id task_id none = none
on_rows dag_id task_id (some rows) = some (summarise_history dag_id task_id (map outcome_of rows))

-- `GetDagRunHistory.execute`, from the rows of the task with the latest start first; `none` is the
-- error of the query.
unfoldable pub run_history : Bool → Text → Text → ℤ → List TaskInstance → Option DagRunHistory
unfolding limited on_rows
run_history unlimited dag_id task_id limit rows =
    on_rows dag_id task_id (limited unlimited limit rows)
