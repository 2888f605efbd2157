-- ===== src/Examples/Investigation.antt =====
-- Runs of the graph.
use dag_doctor.Base.{ℕ, ◌≤◌, ◌≡◌, refl, arith, Option, none, some, List, [], ◌∷◌, map, length}
use dag_doctor.Core.Models.{NodeName}
use dag_doctor.Core.Settings.{IsValid}
use dag_doctor.Graph.State.{InvestigationState, StepRecord}
use dag_doctor.Graph.State.{
  budget_exhausted, iterations_remaining, tool_calls_remaining, exhaustion_reason,
  successful_evidence, refuted_hypotheses, tool_context, has_seen_task,
}
use dag_doctor.Tools.Envelope.{summarise, payload, succeeded}
use dag_doctor.Graph.Confidence.{
  match_signature, known_signatures, compute_confidence, independent_tool_count, signature_term,
  hypothesis_term, evidence_term, penalty_term,
}
use dag_doctor.Graph.Routing.{
  after_triage, after_gather_evidence, after_form_hypothesis, after_test_hypothesis,
  triage_suffices, survived, halt_reason_for_route,
}
use dag_doctor.Core.Json.{fingerprint}
use dag_doctor.Graph.Caller.{ModelCaller}
use dag_doctor.Graph.Toolbox
use dag_doctor.Graph.Toolbox.{arguments_for, with_context}
use dag_doctor.Graph.Nodes.Triage
use dag_doctor.Graph.Nodes.Gather
use dag_doctor.Graph.Nodes.Gather.{
  gather_planned, gathered_state, with_plan, gather_calls, call_key, run_call, resolve,
}
use dag_doctor.Graph.Nodes.Form
use dag_doctor.Graph.Nodes.Form.{to_hypotheses}
use dag_doctor.Graph.Nodes.Probe
use dag_doctor.Graph.Nodes.Probe.{test_evidence, replace}
use dag_doctor.Graph.Nodes.Conclude
use dag_doctor.Graph.Nodes.Conclude.{attributed_task, attributed_dag}
use dag_doctor.Graph.Nodes.Escalate
use dag_doctor.Graph.Builder.{run_graph, next_node, visit, initial_state}
use dag_doctor.Graph.Termination.{run_graph_total}
use dag_doctor.Graph.Limits.{IsWithin, run_graph-IsWithin}
use dag_doctor.Graph.Outcome.{EndsWell, run_graph-EndsWell}
use dag_doctor.Graph.Trace.{IsWalk, run_graph-IsWalk}
use dag_doctor.Worker.Store.{Db, sequences, save}
use dag_doctor.Worker.Sequences.{IsCounted, save-IsCounted}
use dag_doctor.Graph.Nodes.Step.{updated}
use dag_doctor.Graph.Freshness.{IsRound, gather-IsRound}
use dag_doctor.Examples.Samples.{orders_failure, box, budgets, confirming, undecided}

abbrev nodes : Option InvestigationState → List NodeName
nodes none = []
nodes (some t) = map (λ (step : StepRecord). step.node) t.steps

-- A run of the graph that can be evaluated.
observe : ModelCaller → Option InvestigationState
unfolding run_graph next_node visit Triage.run Gather.run Form.run Probe.run Conclude.run
    Escalate.run match_signature known_signatures compute_confidence independent_tool_count
    successful_evidence refuted_hypotheses signature_term hypothesis_term evidence_term penalty_term
    after_triage after_gather_evidence after_form_hypothesis after_test_hypothesis triage_suffices
    survived budget_exhausted iterations_remaining tool_calls_remaining exhaustion_reason
    halt_reason_for_route gather_planned gather_calls call_key run_call resolve tool_context
    arguments_for with_context Toolbox.find Toolbox.run fingerprint test_evidence replace
    to_hypotheses attributed_task attributed_dag has_seen_task summarise payload succeeded
observe caller = run_graph caller box budgets 9 7 orders_failure

-- The hypothesis survives its test, and the run concludes.
confirming_path :
    nodes (observe confirming)
    ≡ NodeName.triage ∷ NodeName.gather_evidence ∷ NodeName.form_hypothesis
      ∷ NodeName.test_hypothesis ∷ NodeName.conclude ∷ []
unfolding observe
confirming_path = refl

-- The second round gathers nothing new, and the run concludes on what it has.
undecided_path :
    nodes (observe undecided)
    ≡ NodeName.triage ∷ NodeName.gather_evidence ∷ NodeName.form_hypothesis
      ∷ NodeName.test_hypothesis ∷ NodeName.gather_evidence ∷ NodeName.conclude ∷ []
unfolding observe
undecided_path = refl

confidence_of : Option InvestigationState → Option ℕ
confidence_of none = none
confidence_of (some t) = elim t.diagnosis [ none ↦ none | some d ↦ some d.confidence ]

-- 0.15 base, 0.20 signature, 0.30 test and 0.0875 for one tool.
confirming_confidence : confidence_of (observe confirming) ≡ some 7375
unfolding observe confidence_of
confirming_confidence = refl

valid : IsValid budgets
valid = omega arith

run_graph_total_example :
    (t : InvestigationState) × (run_graph confirming box budgets 9 7 orders_failure ≡ some t)
    × (length t.steps ≤ 9)
run_graph_total_example = run_graph_total confirming box budgets 7 orders_failure valid

abbrev finished : InvestigationState
finished = (run_graph_total confirming box budgets 7 orders_failure valid).0

run_finished : run_graph confirming box budgets 9 7 orders_failure ≡ some finished
run_finished = (run_graph_total confirming box budgets 7 orders_failure valid).1

run_graph-IsWithin_example : IsWithin budgets finished
run_graph-IsWithin_example =
    run_graph-IsWithin confirming box budgets 9 7 orders_failure finished valid run_finished

run_graph-EndsWell_example : EndsWell budgets finished
run_graph-EndsWell_example =
    run_graph-EndsWell confirming box budgets 9 7 orders_failure finished run_finished

run_graph-IsWalk_example : IsWalk finished.steps none
run_graph-IsWalk_example =
    run_graph-IsWalk confirming box budgets 9 7 orders_failure finished run_finished

abbrev empty : Db
empty = record { incidents = []; steps = []; evidence = []; hypotheses = []; diagnoses = [] }

no_steps : IsCounted 1 (sequences 7 empty.steps)
unfolding sequences
no_steps = tt

save-IsCounted_example : IsCounted 1 (sequences 7 (save finished 1 empty).steps)
save-IsCounted_example = save-IsCounted finished 1 7 empty none run_graph-IsWalk_example no_steps

abbrev begun : InvestigationState
begun = initial_state 7 orders_failure budgets

-- Of the three calls that the model plans, the third repeats the first.
abbrev after_round : InvestigationState
after_round = gathered_state begun (
    gather_planned confirming box begun (
      record { tool = "compare_schema_snapshot"; why = [] }
      ∷ record { tool = "fetch_task_logs"; why = [] }
      ∷ record { tool = "compare_schema_snapshot"; why = [] }
      ∷ []))

round_run : Gather.run confirming box begun ≡ updated after_round (some "llama3.2:3b") 10 5
unfolding Gather.run with_plan
round_run = refl

two_calls : after_round.tool_calls_made ≡ 2
unfolding gathered_state gather_planned initial_state gather_calls call_key run_call resolve
    tool_calls_remaining tool_context arguments_for with_context Toolbox.find Toolbox.run
    fingerprint summarise payload succeeded
two_calls = refl

gather-IsRound_example : IsRound begun after_round
gather-IsRound_example =
    gather-IsRound confirming box begun after_round (some "llama3.2:3b") 10 5 round_run
