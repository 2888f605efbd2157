-- ===== src/Examples/Metadata.antt =====
-- A run in which a task failed, and so did two tasks above it.
use dag_doctor.Base.{
  Option, ℕ, ◌≡◌, ◌⊎◌, refl, Text, codes, none, some, List, [], ◌∷◌, take, true, false, any,
}
use dag_doctor.Tools.Airflow.{
  TaskInstance, TaskState, is_failed, earliest_genuine_failure, choose_failure, first_to_end,
  downstream_edges, dag_of, tasks_of, task_edges, edge_of, body_of, strings_of, put_edges,
}
use dag_doctor.Tools.Airflow.Earliest.{IsEarliest, earliest-IsEarliest}
use dag_doctor.Core.Models.{pos}
use dag_doctor.Tools.Airflow.Listed.{children_in, last_listed, children_in-downstream_edges}
use dag_doctor.Tools.Airflow.States.{IsUpstreamOf}
use dag_doctor.Core.Json.{Json, Fields, str, number, arr, obj, field, end, Items, nil, cons, get}
use dag_doctor.Tools.Airflow.{UpstreamState}
use dag_doctor.Tools.Airflow.Report.{value, execute, execute-IsUpstreamOf}
use dag_doctor.Tools.Airflow.History.{run_history}
use dag_doctor.Tools.Airflow.History.Bounds.{Recorded, run_history-Recorded}

abbrev children : List Text → Items
children [] = nil
children (t ∷ ts) = cons (str t) (children ts)

abbrev body : Text → List Text → Json
body task_id downstream = obj (
    field "task_id" (str task_id) (
      field "downstream_task_ids" (arr (children downstream))
        (field "retries" (number (codes "2")) end)))

-- The tasks of a DAG, one of them nested.
abbrev tasks : Items
tasks =
    cons (obj (field "__var" (body (codes "extract") (codes "load" ∷ [])) end))
      (cons (body (codes "clean") (codes "load" ∷ [])) (cons (body (codes "load") []) nil))

-- A DAG with a key that the code does not read.
abbrev dag_fields : Fields
dag_fields = field "dag_id" (str (codes "sales")) (field "tasks" (arr tasks) end)

abbrev payload : Fields
payload = field "dag" (obj dag_fields) end

abbrev dag : Json
dag = obj payload

dag_found : get "dag" payload ≡ some (obj dag_fields)
unfolding get
dag_found = refl

tasks_found : get "tasks" dag_fields ≡ some (arr tasks)
unfolding get
tasks_found = refl

children_in-downstream_edges_example :
    children_in (codes "extract") (downstream_edges dag) ≡ last_listed (codes "extract") tasks
children_in-downstream_edges_example =
    children_in-downstream_edges payload dag_fields tasks (codes "extract") dag_found tasks_found

abbrev row : Text → Text → ℕ → TaskInstance
row task_id state ended_at = record {
  task_id = task_id;
  run_id = codes "r1";
  state = some state;
  try_number = some 1;
  duration = some 30;
  start_date = none;
  end_date = some ended_at;
}

abbrev rows : List TaskInstance
rows =
    row (codes "extract") (codes "failed") 20
    ∷ row (codes "clean") (codes "failed") 10
    ∷ row (codes "load") (codes "upstream_failed") 30
    ∷ []

abbrev loads : Text → Option Json
loads t = some dag

edges_test :
    downstream_edges dag
    ≡ record { parent = codes "extract"; children = codes "load" ∷ [] }
      ∷ record { parent = codes "clean"; children = codes "load" ∷ [] }
      ∷ record { parent = codes "load"; children = [] }
      ∷ []
unfolding downstream_edges dag_of tasks_of task_edges edge_of body_of strings_of put_edges get
edges_test = refl

execute-IsUpstreamOf_example :
    (out : UpstreamState) × (execute loads (some (str (codes "stored"))) (codes "load") rows
      ≡ value out)
    × IsUpstreamOf (downstream_edges dag) (codes "load") (take 1000 rows) out
execute-IsUpstreamOf_example =
    execute-IsUpstreamOf loads (codes "stored") dag (codes "load") rows refl

abbrev ended : Text → ℕ → TaskState
ended task_id ended_at = record {
  task_id = task_id;
  state = some (codes "failed");
  duration_s = none;
  end_date = some ended_at;
}

abbrev both : List TaskState
both = ended (codes "clean") 10 ∷ ended (codes "extract") 20 ∷ []

clean_first : earliest_genuine_failure both ≡ some (codes "clean")
unfolding earliest_genuine_failure choose_failure first_to_end
clean_first = refl

earliest-IsEarliest_example :
    ((earliest_genuine_failure both ≡ none) × (any is_failed both ≡ false))
    ⊎ ((id : Text) × (earliest_genuine_failure both ≡ some id) × IsEarliest both id)
earliest-IsEarliest_example = earliest-IsEarliest both

run_history-Recorded_example :
    Recorded true (pos 20) rows (run_history true (codes "sales") (codes "load") (pos 20) rows)
run_history-Recorded_example =
    run_history-Recorded true (codes "sales") (codes "load") (pos 20) rows
