-- ===== src/Graph/State.antt =====
-- The state of one investigation (src/dag_doctor/graph/state.py). A set of strings is the list of
-- its members in the order in which they were first added. What a step shows of its inputs and
-- outputs, and its time, are left out of the trace.
use dag_doctor.Base.{
  ℕ, ◌+◌, ◌-◌, ◌==◌, leb, String, Text, codes, decimal, str_eq, has_text, is_infix, Bool, ◌||◌,
  Option, none, some, List, [], ◌∷◌, ◌++◌, keep, any, length, if◌then◌else◌,
}
use dag_doctor.Core.Json.{
  Json, null, str, arr, obj, Items, nil, cons, Fields, end, field, number, get, dumps,
}
use dag_doctor.Core.Models.{
  NodeName, RootCauseCategory, HaltReason, iteration_budget_exhausted, tool_call_budget_exhausted,
  FailureEvent, Evidence, Hypothesis, Diagnosis, is_refuted, is_untested,
}

pub record TriageResult : Type 0 where
  pub category : RootCauseCategory
  pub confidence : ℕ
  pub rationale : Text
  pub matched_signature : Option String
  pub needs_investigation : Bool

pub record StepRecord : Type 0 where
  pub node : NodeName
  pub sequence : ℕ
  pub prompt_tokens : ℕ
  pub completion_tokens : ℕ
  pub model_used : Option String

pub record InvestigationState : Type 0 where
  pub incident_id : ℕ
  pub failure : FailureEvent
  pub triage : Option TriageResult
  pub evidence : List Evidence
  pub hypotheses : List Hypothesis
  pub current_hypothesis : Option Hypothesis
  pub iteration : ℕ
  pub max_iterations : ℕ
  pub tool_calls_made : ℕ
  pub max_tool_calls : ℕ
  pub evidence_exhausted : Bool
  pub diagnosis : Option Diagnosis
  pub halt_reason : Option HaltReason
  pub steps : List StepRecord
  pub unknowns : List Text
  pub model_used : String

-- `max(0, a - b)` is the truncated subtraction.
unfoldable pub iterations_remaining : InvestigationState → ℕ
iterations_remaining s = s.max_iterations - s.iteration

unfoldable pub tool_calls_remaining : InvestigationState → ℕ
tool_calls_remaining s = s.max_tool_calls - s.tool_calls_made

unfoldable pub budget_exhausted : InvestigationState → Bool
unfolding iterations_remaining tool_calls_remaining
budget_exhausted s = iterations_remaining s == 0 || tool_calls_remaining s == 0

unfoldable pub exhaustion_reason : InvestigationState → Option HaltReason
unfolding iterations_remaining tool_calls_remaining
exhaustion_reason s =
    if iterations_remaining s == 0
    then some iteration_budget_exhausted
    else if tool_calls_remaining s == 0
    then some tool_call_budget_exhausted
    else none

unfoldable pub successful_evidence : InvestigationState → List Evidence
successful_evidence s = keep (λ item. item.succeeded) s.evidence

unfoldable pub refuted_hypotheses : InvestigationState → List Hypothesis
refuted_hypotheses s = keep (λ h. is_refuted h.outcome) s.hypotheses

-- Python's stable `sorted(..., key=rank)`, by insertion from the right.
unfoldable pub insert_by_rank : Hypothesis → List Hypothesis → List Hypothesis
insert_by_rank h [] = h ∷ []
insert_by_rank h (k ∷ ks) = if leb h.rank k.rank then h ∷ k ∷ ks else k ∷ insert_by_rank h ks

unfoldable pub sort_by_rank : List Hypothesis → List Hypothesis
unfolding insert_by_rank
sort_by_rank [] = []
sort_by_rank (h ∷ hs) = insert_by_rank h (sort_by_rank hs)

unfoldable pub untested_hypotheses : InvestigationState → List Hypothesis
unfolding sort_by_rank
untested_hypotheses s = sort_by_rank (keep (λ h. is_untested h.outcome) s.hypotheses)

-- `found.add(x)`
unfoldable pub add : Text → List Text → List Text
add x found = if has_text x found then found else found ++ x ∷ []

as_str : Option Json → Option Text
as_str (some (str t)) = some t
as_str _ = none

add_optional : Option Text → List Text → List Text
unfolding add
add_optional none found = found
add_optional (some t) found = add t found

-- The `for entry in upstream` loop: an entry that is no object, or whose `task_id` is no string, is
-- skipped.
entry_task : Json → Option Text
unfolding as_str get
entry_task (obj fs) = as_str (get "task_id" fs)
entry_task _ = none

add_entries : List Text → Items → List Text
unfolding add_optional entry_task
add_entries found nil = found
add_entries found (cons entry rest) = add_entries (add_optional (entry_task entry) found) rest

add_upstream : List Text → Option Json → List Text
unfolding add_entries
add_upstream found (some (arr entries)) = add_entries found entries
add_upstream found _ = found

unfoldable pub add_known : List Text → List Evidence → List Text
unfolding add_upstream add_optional as_str get
add_known found [] = found
add_known found (item ∷ items) =
    add_known
      (add_optional (as_str (get "root_failure" item.result))
        (add_upstream found (get "upstream" item.result)))
      items

unfoldable pub known_task_ids : InvestigationState → List Text
unfolding add_known
known_task_ids s = add_known (codes s.failure.task_id ∷ []) s.evidence

or_null : Option Json → Json
or_null none = null
or_null (some j) = j

-- What one tool said, without the envelope that names the tool.
unfoldable pub reported : Evidence → Text
unfolding or_null get dumps
reported item = item.summary ++ (10 ∷ dumps (or_null (get "data" item.result)))

unfoldable pub has_seen_task : InvestigationState → String → Bool
unfolding reported
has_seen_task s task_id =
    str_eq task_id s.failure.task_id
    || any (λ item. is_infix (codes task_id) (reported item)) s.evidence

unfoldable pub next_sequence : InvestigationState → ℕ
next_sequence s = length s.steps + 1

-- The facts that every tool call about this incident starts from.
unfoldable pub tool_context : InvestigationState → Fields
tool_context s = field "dag_id" (str (codes s.failure.dag_id)) (
    field "task_id" (str (codes s.failure.task_id)) (
      field "run_id" (str (codes s.failure.run_id))
        (field "try_number" (number (decimal s.failure.try_number)) end)))
