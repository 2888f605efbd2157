-- ===== src/Graph/Nodes/Step.antt =====
-- What every node has in common (src/dag_doctor/graph/nodes/base.py).
use dag_doctor.Base.{ℕ, String, str_eq, Option, none, some, [], ◌∷◌, ◌++◌, if◌then◌else◌}
use dag_doctor.Core.Models.{NodeName, investigation_error}
use dag_doctor.Graph.State.{InvestigationState, next_sequence}

-- How `run` ended. An update is given as the state with the updated fields written over it, which
-- is how LangGraph applies it; `raised` is a `DagDoctorError`.
pub data NodeUpdate : Type 0 where
  updated :
      (state : InvestigationState) (model_used : Option String)
      (prompt_tokens completion_tokens : ℕ)
      → NodeUpdate
  raised : NodeUpdate

-- `result["steps"] = [*state.steps, step]`, where `state` is the state that the node was given.
add_step :
    NodeName → InvestigationState → Option String → ℕ → ℕ → InvestigationState → InvestigationState
add_step node before model_used prompt completion after = record after {
  steps =
      before.steps
      ++ record {
        node = node;
        sequence = next_sequence before;
        prompt_tokens = prompt;
        completion_tokens = completion;
        model_used = model_used;
      }
        ∷ [];
}

-- `if outcome.model_used: result.setdefault("model_used", outcome.model_used)`
set_model : Option String → InvestigationState → InvestigationState
set_model none s = s
set_model (some m) s = if str_eq m "" then s else record s { model_used = m }

-- `InvestigationNode.__call__`: the state after the node, the step recorded whatever happened.
unfoldable pub call : NodeName → InvestigationState → NodeUpdate → InvestigationState
unfolding add_step set_model next_sequence
call node s (updated state model_used prompt completion) =
    add_step node s model_used prompt completion (set_model model_used state)
call node s raised = add_step node s none 0 0 (record s { halt_reason = some investigation_error })
