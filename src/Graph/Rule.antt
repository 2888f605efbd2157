-- ===== src/Graph/Rule.antt =====
-- An induction rule for the runs of the graph (src/dag_doctor/graph/builder.py).
use dag_doctor.Base.{ℕ, zero, suc, ◌≡◌, none, some, Option-cases, inl, inr, sym, ◌∙◌}
use mathlib.Core.Path.{subst}
use dag_doctor.Core.Models.{NodeName}
use dag_doctor.Core.Settings.{BudgetSettings}
use dag_doctor.Graph.State.{InvestigationState}
use dag_doctor.Graph.Toolbox.{Toolbox}
use dag_doctor.Graph.Caller.{ModelCaller}
use dag_doctor.Graph.Builder.{next_node, visit, run_from}

module _ (caller : ModelCaller) (box : Toolbox) (budgets : BudgetSettings) where
  pub run_from-stop :
      (fuel : ℕ) (node : NodeName) (s : InvestigationState)
      → next_node budgets node (visit caller box node s) ≡ none
      → run_from caller box budgets (suc fuel) node s ≡ some (visit caller box node s)
  unfolding run_from
  run_from-stop fuel node s stop = rw (stop, run_from)

  pub run_from-go :
      (fuel : ℕ) (node next : NodeName) (s : InvestigationState)
      → next_node budgets node (visit caller box node s) ≡ some next
      → run_from caller box budgets (suc fuel) node s
        ≡ run_from caller box budgets fuel next (visit caller box node s)
  unfolding run_from
  run_from-go fuel node next s go = rw (go, run_from)

  -- An invariant of the state before each node, and what it gives at END.
  pub record Rule (P : NodeName → InvestigationState → Type 0) (Q : InvestigationState → Type 0)
      : Type 0 where
    pub edge :
        (node next : NodeName) (s : InvestigationState)
        → P node s
        → next_node budgets node (visit caller box node s) ≡ some next
        → P next (visit caller box node s)
    pub final :
        (node : NodeName) (s : InvestigationState)
        → P node s
        → next_node budgets node (visit caller box node s) ≡ none
        → Q (visit caller box node s)

  module _ {P : NodeName → InvestigationState → Type 0} {Q : InvestigationState → Type 0}
      (rule : Rule P Q) where
    pub run_from_ind :
        (fuel : ℕ) (node : NodeName) (s t : InvestigationState)
        → P node s
        → run_from caller box budgets fuel node s ≡ some t
        → Q t
    unfolding run_from
    run_from_ind zero node s t h e = cc
    run_from_ind (suc fuel) node s t h e =
        elim (Option-cases (next_node budgets node (visit caller box node s))) [
          | inl stop ↦
              let last : visit caller box node s ≡ t = cc (run_from-stop fuel node s stop) in
              subst Q last (rule.final node s h stop)
          | inr (next, go) ↦
              run_from_ind fuel next (visit caller box node s) t (rule.edge node next s h go)
                (sym (run_from-go fuel node next s go) ∙ e)
        ]
