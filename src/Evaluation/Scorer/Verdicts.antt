-- ===== src/Evaluation/Scorer/Verdicts.antt =====
-- About the verdicts and the accuracy (src/dag_doctor/evaluation/scorer.py).
use dag_doctor.Base.{
  suc, max, str_eq, Bool, true, false, not, List, [], ◌∷◌, map, keep, length, ◌≡◌, refl, ap, ◌∙◌,
  arith, Bool-cases, inl, inr, if◌then◌else◌,
}
use dag_doctor.Evaluation.Scorer.{
  ScenarioResult, diagnosed, category_correct, is_category, verdict, count, fraction,
  category_accuracy,
}

-- An observation that commits to an answer is one of a diagnosis.
abbrev pub IsConsistent : ScenarioResult → Type 0
IsConsistent r = r.observed.conclusive ≡ true → diagnosed r.observed ≡ true

abbrev pub AllConsistent : List ScenarioResult → Type 0
AllConsistent [] = Unit {0}
AllConsistent (r ∷ rs) = IsConsistent r × AllConsistent rs

-- Whether the table's last column says `correct`.
abbrev pub is_right : ScenarioResult → Bool
is_right r = str_eq (verdict r) "correct"

verdict_table :
    (fails is_diagnosed commits same : Bool)
    → (commits ≡ true → is_diagnosed ≡ true)
    → let right = if not fails then not is_diagnosed else if not commits then false else same in
      str_eq
        (if not fails
          then (if right then "correct" else "false positive")
          else if not is_diagnosed
          then "no diagnosis"
          else if not commits
          then "inconclusive"
          else if right
          then "correct"
          else "wrong")
        "correct"
      ≡ right
verdict_table false true commits same h = refl
verdict_table false false commits same h = refl
verdict_table true false true same h = absurd (ground (arith, h refl))
verdict_table true false false same h = refl
verdict_table true true false same h = refl
verdict_table true true true true h = refl
verdict_table true true true false h = refl

verdict_correct : (r : ScenarioResult) → IsConsistent r → is_right r ≡ category_correct r
unfolding verdict category_correct
verdict_correct r h =
    verdict_table r.scenario.expects_failure (diagnosed r.observed) r.observed.conclusive
      (is_category r.observed.category r.scenario.expected_category) h

count-keep :
    (rs : List ScenarioResult)
    → AllConsistent rs
    → count (map category_correct rs) ≡ length (keep is_right rs)
unfolding count
count-keep [] h = refl
count-keep (r ∷ rs) h = elim (Bool-cases (category_correct r)) [
  | inl e ↦ rw (e, verdict_correct r h.0 ∙ e) (ap suc (count-keep rs h.1))
  | inr e ↦ rw (e, verdict_correct r h.0 ∙ e) (count-keep rs h.1)
]

length-map : (f : ScenarioResult → Bool) (rs : List ScenarioResult) → length (map f rs) ≡ length rs
length-map f [] = refl
length-map f (r ∷ rs) = ap suc (length-map f rs)

-- For observations that commit only to a diagnosis, the category accuracy is the share of the rows
-- whose verdict is `correct`, over all the rows, or nothing over one for a table without rows.
pub category_accuracy-verdicts :
    (rs : List ScenarioResult)
    → AllConsistent rs
    → category_accuracy rs ≡ (length (keep is_right rs), max 1 (length rs))
unfolding category_accuracy fraction count
category_accuracy-verdicts [] h = refl
category_accuracy-verdicts (r ∷ rs) h =
    let longer = length-map category_correct rs in
    let total : suc (length (map category_correct rs)) ≡ max 1 (suc (length rs)) = omega arith in
    ap (λ n. (n, suc (length (map category_correct rs)))) (count-keep (r ∷ rs) h)
    ∙ ap (λ n. (length (keep is_right (r ∷ rs)), n)) total
