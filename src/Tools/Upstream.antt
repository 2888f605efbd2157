-- ===== src/Tools/Upstream.antt =====
-- The search for the tasks that a task depends on (`_upstream_of` in
-- src/dag_doctor/tools/airflow_metadata.py). What `_downstream_edges` reads from the serialised DAG,
-- JSON of Airflow's, is the input: each task with the ids of the tasks downstream of it.
pub mod Rounds
pub mod Ancestors
use dag_doctor.Base.{
  ℕ, zero, suc, ◌+◌, Text, has_text, Bool, true, false, Option, none, some, List, [], ◌∷◌, ◌++◌,
  map, keep,
}

pub record Edges : Type 0 where
  pub parent : Text
  pub children : List Text

-- `parents.get(task_id, set())`: the graph inverted at one task. The order of a Python set is not
-- specified; here it is that of the DAG.
unfoldable pub parents_of : List Edges → Text → List Text
parents_of downstream task_id =
    map (λ (e : Edges). e.parent) (keep (λ (e : Edges). has_text task_id e.children) downstream)

module _ (downstream : List Edges) where
  -- The `while` loop, whose stack has its top at the head; `none` means that the fuel ran out.
  unfoldable pub search : ℕ → List Text → List Text → Option (List Text)
  search zero seen frontier = none
  search (suc fuel) seen [] = some seen
  search (suc fuel) seen (current ∷ frontier) = elim (has_text current seen) [
    | true ↦ search fuel seen frontier
    | false ↦ search fuel (current ∷ seen) (parents_of downstream current ++ frontier)
  ]

  unfoldable pub upstream_of : ℕ → Text → Option (List Text)
  upstream_of fuel task_id = search fuel [] (parents_of downstream task_id)
