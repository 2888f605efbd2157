-- ===== src/Tools/Airflow.antt =====
-- The tools that read Airflow's metadata (src/dag_doctor/tools/airflow_metadata.py): the reading of a
-- serialised DAG, the history of a task and the states of the tasks upstream of one. The rows are
-- what the queries return; a moment is a number, and a duration one of its smallest unit.
pub mod Earliest
pub mod Listed
pub mod States
pub mod History
pub mod Report
use dag_doctor.Base.{
  ℕ, zero, suc, ◌+◌, ◌-◌, ◌/◌, ◌==◌, ltb, leb, min, max, String, Text, codes, same_text, has_text,
  text_lt, Bool, true, false, not, ◌&&◌, ◌||◌, Option, none, some, List, [], ◌∷◌, ◌++◌, map, keep,
  length, take, get_elem?, if◌then◌else◌,
}
use dag_doctor.Core.Json.{Json, null, bool, number, str, arr, obj, Fields, Items, nil, cons, get}
use dag_doctor.Tools.Upstream.{Edges, upstream_of}

-- A row of `task_instance`.
pub record TaskInstance : Type 0 where
  pub task_id : Text
  pub run_id : Text
  pub state : Option Text
  pub try_number : Option ℕ
  pub duration : Option ℕ
  pub start_date : Option ℕ
  pub end_date : Option ℕ

-- `edges[task_id] = children` on a dict, which keeps the place of a key that it has.
unfoldable pub put_edges : Text → List Text → List Edges → List Edges
put_edges task_id children [] = record { parent = task_id; children = children } ∷ []
put_edges task_id children (e ∷ es) =
    let rest = put_edges task_id children es in
    if same_text e.parent task_id
    then record { parent = task_id; children = children } ∷ es
    else e ∷ rest

unfoldable pub strings_of : Items → List Text
strings_of nil = []
strings_of (cons (str t) js) = t ∷ strings_of js
strings_of (cons _ js) = strings_of js

-- A task that has an id and a list of children.
unfoldable pub edge_of : Option Json → Option Json → List Edges → List Edges
unfolding strings_of put_edges
edge_of (some (str task_id)) (some (arr children)) known =
    put_edges task_id (strings_of children) known
edge_of _ _ known = known

-- `nested if isinstance(nested, dict) else task`
unfoldable pub body_of : Option Json → Fields → Fields
body_of (some (obj nested)) task = nested
body_of _ task = task

unfoldable pub task_edges : Items → List Edges → List Edges
unfolding edge_of body_of
task_edges nil known = known
task_edges (cons (obj task) js) known =
    let body = body_of (get "__var" task) task in
    task_edges js (edge_of (get "task_id" body) (get "downstream_task_ids" body) known)
task_edges (cons _ js) known = task_edges js known

unfoldable pub tasks_of : Option Json → List Edges
unfolding task_edges
tasks_of (some (arr tasks)) = task_edges tasks []
tasks_of _ = []

unfoldable pub dag_of : Option Json → List Edges
unfolding tasks_of
dag_of (some (obj dag)) = tasks_of (get "tasks" dag)
dag_of _ = []

-- `_downstream_edges`, once the JSON is read.
unfoldable pub downstream_edges : Json → List Edges
unfolding dag_of
downstream_edges (obj payload) = dag_of (get "dag" payload)
downstream_edges _ = []

abbrev pub state_is : String → Option Text → Bool
state_is s none = false
state_is s (some t) = same_text t (codes s)

-- `state in UNSUCCESSFUL_STATES`
abbrev pub is_unsuccessful : Option Text → Bool
is_unsuccessful state =
    state_is "failed" state
    || state_is "upstream_failed" state
    || state_is "skipped" state
    || state_is "removed" state

pub record TaskState : Type 0 where
  pub task_id : Text
  pub state : Option Text
  pub duration_s : Option ℕ
  pub end_date : Option ℕ

abbrev pub is_failed : TaskState → Bool
is_failed t = state_is "failed" t.state

abbrev pub has_end : TaskState → Bool
has_end t = elim t.end_date [ none ↦ false | some _ ↦ true ]

-- Whether one end is before another; `none` is `datetime.max`.
abbrev pub ends_before : Option ℕ → Option ℕ → Bool
ends_before none b = false
ends_before (some a) none = true
ends_before (some a) (some b) = ltb a b

-- `min(tasks, key=end_date)`: the first of those that end first.
unfoldable pub first_to_end : TaskState → List TaskState → TaskState
first_to_end t [] = t
first_to_end t (u ∷ us) = first_to_end (if ends_before u.end_date t.end_date then u else t) us

unfoldable pub choose_failure : List TaskState → List TaskState → Option TaskState
unfolding first_to_end
choose_failure [] dated = none
choose_failure (g ∷ gs) [] = some g
choose_failure (g ∷ gs) (d ∷ ds) = some (first_to_end d ds)

abbrev pub id_of : Option TaskState → Option Text
id_of none = none
id_of (some t) = some t.task_id

-- `_earliest_genuine_failure`
unfoldable pub earliest_genuine_failure : List TaskState → Option Text
unfolding choose_failure
earliest_genuine_failure upstream =
    let genuine = keep is_failed upstream in id_of (choose_failure genuine (keep has_end genuine))

-- A dict of states by task id, kept in the order of the ids: a later row replaces an earlier one.
unfoldable pub put_state : TaskState → List TaskState → List TaskState
put_state t [] = t ∷ []
put_state t (u ∷ us) =
    let rest = put_state t us in
    if same_text t.task_id u.task_id
    then t ∷ us
    else if text_lt t.task_id u.task_id
    then t ∷ u ∷ us
    else u ∷ rest

abbrev pub state_of : TaskInstance → TaskState
state_of row = record {
  task_id = row.task_id;
  state = row.state;
  duration_s = row.duration;
  end_date = row.end_date;
}

unfoldable pub states_of : List Text → List TaskInstance → List TaskState → List TaskState
unfolding put_state
states_of upstream_ids [] known = known
states_of upstream_ids (row ∷ rows) known =
    states_of upstream_ids rows
      (if has_text row.task_id upstream_ids then put_state (state_of row) known else known)

pub record UpstreamState : Type 0 where
  pub upstream : List TaskState
  pub failed_upstream : List Text
  pub root_failure : Option Text
  pub all_upstream_succeeded : Bool

abbrev pub no_text : List Text → Bool
no_text [] = true
no_text (t ∷ ts) = false

-- `GetUpstreamTaskState.execute`, from the tasks found upstream and the rows of the run.
unfoldable pub upstream_state : List Text → List TaskInstance → UpstreamState
unfolding states_of earliest_genuine_failure
upstream_state upstream_ids rows =
    let upstream = states_of upstream_ids rows [] in
    let failed =
      map (λ t. t.task_id) (keep (λ (t : TaskState). is_unsuccessful t.state) upstream) in
    record {
      upstream = upstream;
      failed_upstream = failed;
      root_failure = earliest_genuine_failure upstream;
      all_upstream_succeeded = no_text failed;
    }
