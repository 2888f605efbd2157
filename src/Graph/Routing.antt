-- ===== src/Graph/Routing.antt =====
-- The conditional edges (src/dag_doctor/graph/routing.py). A route is the node that comes next.
use dag_doctor.Base.{
  leb, Bool, true, false, not, ◌&&◌, ◌||◌, Option, none, some, List, [], ◌∷◌, if◌then◌else◌,
}
use dag_doctor.Core.Models.{
  NodeName, HaltReason, concluded, no_hypothesis_formed, confidence_too_low, Hypothesis,
  is_confirmed, is_concluded,
}
use dag_doctor.Core.Settings.{BudgetSettings}
use dag_doctor.Graph.State.{InvestigationState, TriageResult, budget_exhausted, exhaustion_reason}
use dag_doctor.Graph.Confidence.{compute_confidence}

abbrev pub is_halt : Option HaltReason → Bool
is_halt none = false
is_halt (some reason) = not (is_concluded reason)

-- `_halted`
unfoldable pub halted : InvestigationState → Bool
halted s = is_halt s.halt_reason

-- Triage alone is trusted.
unfoldable pub triage_suffices : Option TriageResult → BudgetSettings → Bool
triage_suffices none budgets = false
triage_suffices (some triage) budgets =
    not triage.needs_investigation && leb budgets.triage_shortcut_confidence triage.confidence

unfoldable pub after_triage : InvestigationState → BudgetSettings → NodeName
unfolding halted
after_triage s budgets =
    if halted s
    then NodeName.escalate
    else if triage_suffices s.triage budgets
    then NodeName.conclude
    else if budget_exhausted s
    then NodeName.escalate
    else NodeName.gather_evidence

abbrev pub is_empty {ℓ} : {A : Type ℓ} → List A → Bool
is_empty [] = true
is_empty (x ∷ xs) = false

unfoldable pub after_gather_evidence : InvestigationState → NodeName
unfolding halted
after_gather_evidence s =
    if halted s || budget_exhausted s
    then NodeName.escalate
    else if s.evidence_exhausted && not (is_empty s.hypotheses)
    then NodeName.conclude
    else NodeName.form_hypothesis

abbrev pub is_none {ℓ} : {A : Type ℓ} → Option A → Bool
is_none none = true
is_none (some a) = false

unfoldable pub after_form_hypothesis : InvestigationState → NodeName
unfolding halted
after_form_hypothesis s =
    if halted s
    then NodeName.escalate
    else if is_none s.current_hypothesis
    then NodeName.escalate
    else NodeName.test_hypothesis

-- `hypothesis is not None and hypothesis.outcome is CONFIRMED`
unfoldable pub survived : Option Hypothesis → Bool
survived none = false
survived (some hypothesis) = is_confirmed hypothesis.outcome

unfoldable pub after_test_hypothesis : InvestigationState → BudgetSettings → NodeName
unfolding halted
after_test_hypothesis s budgets =
    if halted s
    then NodeName.escalate
    else if survived s.current_hypothesis
    then if leb budgets.min_conclude_confidence (compute_confidence s).total
      then NodeName.conclude
      else NodeName.escalate
    else if budget_exhausted s
    then NodeName.escalate
    else NodeName.gather_evidence

-- The end of `halt_reason_for_route`, past the test of the state's own reason.
route_reason : InvestigationState → Option HaltReason → HaltReason
route_reason s (some exhausted) = exhausted
route_reason s none =
    if is_none s.current_hypothesis then no_hypothesis_formed else confidence_too_low

own_reason : InvestigationState → Option HaltReason → HaltReason
unfolding route_reason
own_reason s (some concluded) = route_reason s (exhaustion_reason s)
own_reason s (some reason) = reason
own_reason s none = route_reason s (exhaustion_reason s)

unfoldable pub halt_reason_for_route : InvestigationState → HaltReason
unfolding own_reason
halt_reason_for_route s = own_reason s s.halt_reason
