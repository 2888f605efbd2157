-- ===== src/Graph/Nodes/Form.antt =====
-- Forming hypotheses (src/dag_doctor/graph/nodes/form_hypothesis.py).
use dag_doctor.Base.{
  ℕ, zero, suc, ◌+◌, ltb, Option, none, some, List, [], ◌∷◌, ◌++◌, take, get_elem?, length,
  if◌then◌else◌,
}
use dag_doctor.Core.Json.{end}
use dag_doctor.Core.Models.{ℤ, pos, negsuc, HypothesisOutcome, Evidence, Hypothesis}
use dag_doctor.Graph.State.{InvestigationState}
use dag_doctor.Graph.Caller.{ModelCaller, Reply, answer, provider_error, ProposedHypothesis}
use dag_doctor.Graph.Nodes.Step.{NodeUpdate, updated, raised}

abbrev pub max_hypotheses : ℕ
max_hypotheses = 3

-- The evidence that a one-based number cites, if it is in range.
unfoldable pub cited : List Evidence → ℤ → Option Evidence
cited evidence (pos zero) = none
cited evidence (pos (suc n)) = get_elem? evidence n
cited evidence (negsuc n) = none

cons_id : Option Evidence → List ℕ → List ℕ
cons_id none ids = ids
cons_id (some item) ids = item.id ∷ ids

unfoldable pub supporting : List Evidence → List ℤ → List ℕ
unfolding cited cons_id
supporting evidence [] = []
supporting evidence (number ∷ numbers) =
    cons_id (cited evidence number) (supporting evidence numbers)

-- `_to_hypothesis`, with the id that `uuid4` gives.
unfoldable pub to_hypothesis : ProposedHypothesis → InvestigationState → ℕ → ℕ → Hypothesis
unfolding supporting
to_hypothesis candidate s id rank = record {
  id = id;
  statement = candidate.statement;
  root_cause_category = candidate.category;
  proposed_test = candidate.proposed_test;
  test_tool = some candidate.test_tool;
  test_arguments = end;
  rank = rank;
  outcome = HypothesisOutcome.untested;
  test_notes = none;
  supporting_evidence_ids = supporting s.evidence candidate.supporting_evidence;
  responsible_dag_id = candidate.responsible_dag_id;
  responsible_task_id = candidate.responsible_task_id;
}

-- The comprehension over `enumerate(...)`; `offset` is the position reached.
unfoldable pub to_hypotheses :
    ModelCaller → InvestigationState → ℕ → List ProposedHypothesis → List Hypothesis
unfolding to_hypothesis
to_hypotheses caller s offset [] = []
to_hypotheses caller s offset (candidate ∷ candidates) =
    to_hypothesis candidate s (caller.uuid s offset) (length s.hypotheses + offset)
    ∷ to_hypotheses caller s (suc offset) candidates

-- `min(proposed, key=rank)`: the first of those with the least rank.
least_from : Hypothesis → List Hypothesis → Hypothesis
least_from best [] = best
least_from best (h ∷ hs) = least_from (if ltb h.rank best.rank then h else best) hs

unfoldable pub least_rank : List Hypothesis → Option Hypothesis
unfolding least_from
least_rank [] = none
least_rank (h ∷ hs) = some (least_from h hs)

unfoldable pub formed_state : InvestigationState → List Hypothesis → InvestigationState
unfolding least_rank
formed_state s proposed = record s {
  hypotheses = s.hypotheses ++ proposed;
  current_hypothesis = least_rank proposed;
}

with_set : ModelCaller → InvestigationState → Reply (List ProposedHypothesis) → NodeUpdate
unfolding formed_state
with_set caller s provider_error = raised
with_set caller s (answer candidates m p c) =
    updated (formed_state s (to_hypotheses caller s 0 (take max_hypotheses candidates))) (some m) p
      c

-- `FormHypothesisNode.run`
unfoldable pub run : ModelCaller → InvestigationState → NodeUpdate
unfolding with_set
run caller s = with_set caller s (caller.hypotheses s)
