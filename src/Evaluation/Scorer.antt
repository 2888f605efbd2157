-- ===== src/Evaluation/Scorer.antt =====
-- Scoring what the agent produced for a scenario (src/dag_doctor/evaluation/scorer.py, and the
-- scenarios' fields from scenarios.py). A fraction is a numerator and a denominator, before Python
-- rounds it; a confidence is in ten-thousandths, and a difference of means is kept as the two means.
pub mod Verdicts
use dag_doctor.Base.{
  ℕ, zero, suc, ◌+◌, String, str_eq, Text, Bool, true, false, not, ◌&&◌, Option, none, some,
  is_some, List, [], ◌∷◌, map, keep, length, if◌then◌else◌,
}
use dag_doctor.Core.Models.{RootCauseCategory, same_category}

pub record Scenario : Type 0 where
  pub dag_id : String
  pub failing_task : String
  pub expected_category : Option RootCauseCategory
  pub expected_responsible_task : Option String
  pub expects_failure : Bool

-- `Scenario.scores_attribution`
abbrev pub scores_attribution : Scenario → Bool
scores_attribution s = is_some s.expected_responsible_task

pub record Observed : Type 0 where
  pub incident_id : Option Text
  pub category : Option RootCauseCategory
  pub responsible_task : Option String
  pub confidence : ℕ
  pub conclusive : Bool

-- `Observed()`
abbrev pub nothing_observed : Observed
nothing_observed = record {
  incident_id = none;
  category = none;
  responsible_task = none;
  confidence = 0;
  conclusive = false;
}

-- `Observed.diagnosed`
abbrev pub diagnosed : Observed → Bool
diagnosed o = is_some o.incident_id

pub record ScenarioResult : Type 0 where
  pub scenario : Scenario
  pub observed : Observed

-- `a is b`, of two categories or `None`.
unfoldable pub is_category : Option RootCauseCategory → Option RootCauseCategory → Bool
is_category none none = true
is_category (some a) (some b) = same_category a b
is_category _ _ = false

unfoldable pub same_task : Option String → Option String → Bool
same_task none none = true
same_task (some a) (some b) = str_eq a b
same_task _ _ = false

-- `ScenarioResult.category_correct`
unfoldable pub category_correct : ScenarioResult → Bool
unfolding is_category
category_correct r =
    if not r.scenario.expects_failure
    then not (diagnosed r.observed)
    else if not r.observed.conclusive
    then false
    else is_category r.observed.category r.scenario.expected_category

-- `ScenarioResult.attribution_correct`
unfoldable pub attribution_correct : ScenarioResult → Option Bool
unfolding same_task
attribution_correct r =
    if not (scores_attribution r.scenario)
    then none
    else if not r.observed.conclusive
    then some false
    else some (same_task r.observed.responsible_task r.scenario.expected_responsible_task)

-- `ScenarioResult.verdict`
unfoldable pub verdict : ScenarioResult → String
unfolding category_correct
verdict r =
    if not r.scenario.expects_failure
    then (if category_correct r then "correct" else "false positive")
    else if not (diagnosed r.observed)
    then "no diagnosis"
    else if not r.observed.conclusive
    then "inconclusive"
    else if category_correct r
    then "correct"
    else "wrong"

-- `_count`
unfoldable pub count : List Bool → ℕ
count [] = 0
count (flag ∷ flags) = let rest = count flags in if flag then suc rest else rest

-- `_fraction`
unfoldable pub fraction : List Bool → ℕ × ℕ
unfolding count
fraction [] = (0, 1)
fraction (flag ∷ flags) = (count (flag ∷ flags), length (flag ∷ flags))

-- `Scorecard.category_accuracy`
unfoldable pub category_accuracy : List ScenarioResult → ℕ × ℕ
unfolding fraction category_correct
category_accuracy results = fraction (map category_correct results)

unfoldable pub judged : List ScenarioResult → List Bool
unfolding attribution_correct
judged [] = []
judged (r ∷ rs) =
    let rest = judged rs in elim (attribution_correct r) [ none ↦ rest | some flag ↦ flag ∷ rest ]

-- `Scorecard.attribution_accuracy`
unfoldable pub attribution_accuracy : List ScenarioResult → ℕ × ℕ
unfolding judged fraction
attribution_accuracy results = fraction (judged results)

-- `Scorecard.conclusive_rate`
unfoldable pub conclusive_rate : List ScenarioResult → ℕ × ℕ
unfolding fraction
conclusive_rate results = fraction (
    map (λ (r : ScenarioResult). r.observed.conclusive)
      (keep (λ (r : ScenarioResult). r.scenario.expects_failure) results))

abbrev sum : List ℕ → ℕ
sum [] = 0
sum (n ∷ ns) = n + sum ns

unfoldable pub mean : List ℕ → ℕ × ℕ
mean [] = (0, 1)
mean (n ∷ ns) = (sum (n ∷ ns), length (n ∷ ns))

unfoldable pub confidences : (ScenarioResult → Bool) → List ScenarioResult → List ℕ
confidences p results =
    map (λ (r : ScenarioResult). r.observed.confidence)
      (keep (λ (r : ScenarioResult). p r && diagnosed r.observed) results)

-- `Scorecard.mean_confidence`
unfoldable pub mean_confidence : List ScenarioResult → ℕ × ℕ
unfolding mean confidences
mean_confidence results = mean (confidences (λ r. true) results)

-- The two means of `Scorecard.calibration_gap`, wrong and right, where there are both.
unfoldable pub both_means : List ℕ → List ℕ → Option ((ℕ × ℕ) × (ℕ × ℕ))
unfolding mean
both_means [] right = none
both_means wrong [] = none
both_means wrong right = some (mean wrong, mean right)

unfoldable pub calibration : List ScenarioResult → Option ((ℕ × ℕ) × (ℕ × ℕ))
unfolding both_means confidences
calibration results =
    both_means (confidences (λ r. not (category_correct r)) results)
      (confidences category_correct results)
