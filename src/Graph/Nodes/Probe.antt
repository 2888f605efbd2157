-- ===== src/Graph/Nodes/Probe.antt =====
-- Testing a hypothesis (src/dag_doctor/graph/nodes/test_hypothesis.py).
use dag_doctor.Base.{
  ◌+◌, ◌==◌, ltb, String, str_eq, Option, none, some, List, [], ◌∷◌, ◌++◌, map, length,
  if◌then◌else◌,
}
use dag_doctor.Core.Json.{Fields, end, field}
use dag_doctor.Core.Models.{Evidence, Hypothesis}
use dag_doctor.Graph.State.{InvestigationState, tool_calls_remaining, tool_context}
use dag_doctor.Graph.Toolbox
use dag_doctor.Graph.Toolbox.{Toolbox}
use dag_doctor.Graph.Caller.{ModelCaller, Reply, answer, provider_error, TestVerdict}
use dag_doctor.Graph.Nodes.Step.{NodeUpdate, updated, raised}
use dag_doctor.Graph.Nodes.Gather.{resolve}

-- `dict(hypothesis.test_arguments) or await resolve(...)`
or_resolved : Fields → Fields → Fields
or_resolved end resolved = resolved
or_resolved (field k v rest) resolved = field k v rest

module _ (caller : ModelCaller) (box : Toolbox) (s : InvestigationState) where
  run_test : Hypothesis → Option String → List Evidence
  unfolding or_resolved
  run_test hypothesis none = []
  run_test hypothesis (some tool) =
      if str_eq tool ""
      then []
      else if ltb 0 (tool_calls_remaining s)
      then Toolbox.run (caller.uuid s 0) box tool
          (or_resolved hypothesis.test_arguments (resolve caller box s 0 tool)) (tool_context s)
        ∷ []
      else []

  -- The evidence of the test: one call if the hypothesis names a tool and the budget allows it.
  unfoldable pub test_evidence : Hypothesis → List Evidence
  unfolding run_test
  test_evidence hypothesis = run_test hypothesis hypothesis.test_tool

-- `tested if item.id == tested.id else item`
unfoldable pub replace : Hypothesis → Hypothesis → Hypothesis
replace tested item = if item.id == tested.id then tested else item

unfoldable pub judged : Hypothesis → TestVerdict → Hypothesis
judged hypothesis verdict = record hypothesis {
  outcome = verdict.outcome;
  test_notes = some verdict.notes;
}

unfoldable pub tested_state : InvestigationState → Hypothesis → List Evidence → InvestigationState
tested_state s tested evidence = record s {
  current_hypothesis = some tested;
  hypotheses = map (replace tested) s.hypotheses;
  evidence = s.evidence ++ evidence;
  tool_calls_made = s.tool_calls_made + length evidence;
}

with_verdict : InvestigationState → Hypothesis → List Evidence → Reply TestVerdict → NodeUpdate
unfolding tested_state judged
with_verdict s hypothesis evidence provider_error = raised
with_verdict s hypothesis evidence (answer verdict m p c) =
    updated (tested_state s (judged hypothesis verdict) evidence) (some m) p c

test_current : ModelCaller → Toolbox → InvestigationState → Option Hypothesis → NodeUpdate
unfolding with_verdict
test_current caller box s none = updated s none 0 0
test_current caller box s (some hypothesis) =
    let evidence = test_evidence caller box s hypothesis in
    with_verdict s hypothesis evidence (caller.verdict s evidence)

-- `TestHypothesisNode.run`
unfoldable pub run : ModelCaller → Toolbox → InvestigationState → NodeUpdate
unfolding test_current
run caller box s = test_current caller box s s.current_hypothesis
