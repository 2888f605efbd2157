-- ===== src/Tools/Airflow/Report.antt =====
-- The whole call that reports the tasks upstream of one (src/dag_doctor/tools/airflow_metadata.py,
-- GetUpstreamTaskState.execute). What `json.loads` reads of a text is a parameter.
use dag_doctor.Base.{Text, Option, none, some, List, take, ◌≡◌, ap, ◌∙◌}
use dag_doctor.Core.Json.{Json, null, str}
use dag_doctor.Tools.Upstream.{Edges, upstream_of}
use dag_doctor.Tools.Upstream.Rounds.{enough}
use dag_doctor.Tools.Airflow.{TaskInstance, UpstreamState, downstream_edges, upstream_state}
use dag_doctor.Tools.Sql.{max_rows_ceiling}
use dag_doctor.Tools.Airflow.States.{IsUpstreamOf, upstream_state-IsUpstreamOf}

-- The edges of a DAG, the `TargetNotFoundError` of one that is not stored, or the exception of
-- `json.loads`.
pub data ReadDag : Type 0 where
  edges : List Edges → ReadDag
  no_dag unreadable : ReadDag

-- What a call comes to; `no_fuel` means that the fuel of the search ran out.
pub data Reported : Type 0 where
  value : UpstreamState → Reported
  target_not_found json_error no_fuel : Reported

unfoldable pub loaded : Option Json → ReadDag
loaded none = unreadable
loaded (some j) = edges (downstream_edges j)

-- The row of `serialized_dag`, which is missing or has a column `data`: text that is JSON, or JSON
-- that the driver has read.
unfoldable pub read_dag : (Text → Option Json) → Option Json → ReadDag
unfolding loaded
read_dag loads none = no_dag
read_dag loads (some null) = no_dag
read_dag loads (some (str t)) = loaded (loads t)
read_dag loads (some j) = edges (downstream_edges j)

unfoldable pub on_found : List TaskInstance → Option (List Text) → Reported
on_found rows none = no_fuel
on_found rows (some found) = value (upstream_state found rows)

unfoldable pub on_dag : Text → List TaskInstance → ReadDag → Reported
unfolding on_found
on_dag task_id rows (edges es) = on_found rows (upstream_of es (enough es task_id) task_id)
on_dag task_id rows no_dag = target_not_found
on_dag task_id rows unreadable = json_error

-- `GetUpstreamTaskState.execute`, from the DAG's row and the rows of the run, of which the executor
-- fetches the first ones.
unfoldable pub execute : (Text → Option Json) → Option Json → Text → List TaskInstance → Reported
unfolding read_dag on_dag
execute loads row task_id rows = on_dag task_id (take max_rows_ceiling rows) (read_dag loads row)

on_dag_value :
    (es : List Edges) (task_id : Text) (rows : List TaskInstance)
    → (out : UpstreamState) × (on_dag task_id rows (edges es) ≡ value out)
      × IsUpstreamOf es task_id rows out
unfolding on_dag on_found
on_dag_value es task_id rows =
    let (found, ends, right) = upstream_state-IsUpstreamOf es task_id rows in
    (upstream_state found rows, ap (on_found rows) ends, right)

-- For a stored DAG that `json.loads` reads, whatever its shape, the call ends with a report for the
-- first 1000 rows of the run: of the tasks that are reached by going up from the failing one along
-- the edges read, it has each that has a row among them, with the state of the last, and no other
-- task; it says that all of them succeeded exactly if none of them is failed, upstream_failed, skipped
-- or removed.
pub execute-IsUpstreamOf :
    (loads : Text → Option Json) (stored : Text) (dag : Json) (task_id : Text)
    (rows : List TaskInstance)
    → loads stored ≡ some dag
    → (out : UpstreamState) × (execute loads (some (str stored)) task_id rows ≡ value out)
      × IsUpstreamOf (downstream_edges dag) task_id (take 1000 rows) out
unfolding execute read_dag loaded
execute-IsUpstreamOf loads stored dag task_id rows e =
    let (out, is_value, right) =
      on_dag_value (downstream_edges dag) task_id (take max_rows_ceiling rows) in
    (out, ap (λ j. on_dag task_id (take max_rows_ceiling rows) (loaded j)) e ∙ is_value, right)
