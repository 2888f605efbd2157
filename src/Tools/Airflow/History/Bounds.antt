-- ===== src/Tools/Airflow/History/Bounds.antt =====
-- About the reading of a task's record (src/dag_doctor/tools/airflow_metadata.py,
-- _summarise_history).
use dag_doctor.Base.{
  ℕ, zero, suc, sym, ◌∙◌, subst, ◌≤◌, min, ◌≡◌, refl, ap, arith, inl, inr, Bool-cases, Bool, true,
  false, Option, none, some, List, [], ◌∷◌, map, all, length, take, length-take, get_elem?, Text,
}
use dag_doctor.Core.Models.{ℤ, pos, negsuc}
use dag_doctor.Tools.Sql.{max_rows_ceiling}
use dag_doctor.Tools.Airflow.{TaskInstance}
use dag_doctor.Tools.Airflow.History.{
  RunOutcome, DagRunHistory, run_failed, outcome_of, consecutive, failures, summarise_history,
  run_history, limited, on_rows,
}

abbrev pub run_or_ended : Option RunOutcome → Bool
run_or_ended none = false
run_or_ended (some run) = run_failed run

length-map :
    (f : TaskInstance → RunOutcome) (xs : List TaskInstance) → length (map f xs) ≡ length xs
length-map f [] = refl
length-map f (x ∷ xs) = ap suc (length-map f xs)

consecutive-failed : (runs : List RunOutcome) → all run_failed (take (consecutive runs) runs) ≡ true
unfolding consecutive
consecutive-failed [] = refl
consecutive-failed (run ∷ runs) = elim (Bool-cases (run_failed run)) [
  | inl e ↦ rw (e, consecutive-failed runs) (ground arith)
  | inr e ↦ rw e refl
]

consecutive-stops :
    (runs : List RunOutcome) → run_or_ended (get_elem? runs (consecutive runs)) ≡ false
unfolding consecutive
consecutive-stops [] = refl
consecutive-stops (run ∷ runs) = elim (Bool-cases (run_failed run)) [
  | inl e ↦ rw e (consecutive-stops runs)
  | inr e ↦ rw (e, e) refl
]

consecutive-le : (runs : List RunOutcome) → consecutive runs ≤ length (failures runs)
unfolding consecutive
consecutive-le [] = omega arith
consecutive-le (run ∷ runs) = ground (arith, consecutive-le runs)

failures-le : (runs : List RunOutcome) → length (failures runs) ≤ length runs
failures-le [] = omega arith
failures-le (run ∷ runs) = ground (arith, failures-le runs)

-- What the record says of the rows: it lists the first of them, so many, and counts the failures at
-- their beginning.
pub record IsRecordOf (limit : ℤ) (rows : List TaskInstance) (h : DagRunHistory) : Type 0 where
  pub first_ones : h.runs ≡ map outcome_of (take (length h.runs) rows)
  pub bounded : length h.runs ≤ 1000
  pub within_limit : (n : ℕ) → limit ≡ pos n → (length h.runs ≤ n) × (length h.runs ≤ 100)
  pub in_order :
      (h.consecutive_failures ≤ length (failures h.runs))
      × (length (failures h.runs) ≤ length h.runs)
  pub row_failed : all run_failed (take h.consecutive_failures h.runs) ≡ true
  pub row_ended : run_or_ended (get_elem? h.runs h.consecutive_failures) ≡ false

-- A record, or no record where the limit is negative and the database refuses that.
abbrev pub Recorded : Bool → ℤ → List TaskInstance → Option DagRunHistory → Type 0
Recorded unlimited limit rows none = (unlimited ≡ false) × ((n : ℕ) × (limit ≡ negsuc n))
Recorded unlimited limit rows (some h) = IsRecordOf limit rows h

take_self : {A : Type 0} (n : ℕ) (xs : List A) → take (length (take n xs)) xs ≡ take n xs
take_self zero xs = refl
take_self (suc n) [] = refl
take_self (suc n) (x ∷ xs) = ap (λ ys. x ∷ ys) (take_self n xs)

summarise_history-IsRecordOf :
    (dag_id task_id : Text) (limit : ℤ) (rows : List TaskInstance) (count : ℕ)
    → count ≤ 1000
    → ((n : ℕ) → limit ≡ pos n → (count ≤ n) × (count ≤ 100))
    → IsRecordOf limit rows (summarise_history dag_id task_id (map outcome_of (take count rows)))
unfolding summarise_history
summarise_history-IsRecordOf dag_id task_id limit rows count few within =
    let runs = map outcome_of (take count rows) in
    let same = length-map outcome_of (take count rows) in
    record {
      first_ones =
          ap (map outcome_of) (sym (take_self count rows) ∙ ap (λ n. take n rows) (sym same));
      bounded = omega (arith, same, length-take count rows);
      within_limit = λ n e.
          let (a, b) = within n e in
          (
            omega (arith, same, length-take count rows),
            omega (arith, same, length-take count rows),
          );
      in_order = (consecutive-le runs, failures-le runs);
      row_failed = consecutive-failed runs;
      row_ended = consecutive-stops runs;
    }

min-zero : (n : ℕ) → min 0 n ≡ 0
min-zero n = omega arith

min-zero_right : (n : ℕ) → min n 0 ≡ 0
min-zero_right n = omega arith

min-suc : (m n : ℕ) → min (suc m) (suc n) ≡ suc (min m n)
min-suc m n = omega arith

take-take-min : {A : Type 0} (m n : ℕ) (xs : List A) → take m (take n xs) ≡ take (min m n) xs
take-take-min zero n xs = ap (λ k. take k xs) (sym (min-zero n))
take-take-min (suc m) zero xs = ap (λ k. take k xs) (sym (min-zero_right (suc m)))
take-take-min (suc m) (suc n) [] = ap (λ k. take k []) (sym (min-suc m n))
take-take-min (suc m) (suc n) (x ∷ xs) =
    ap (λ ys. x ∷ ys) (take-take-min m n xs) ∙ ap (λ k. take k (x ∷ xs)) (sym (min-suc m n))

pos-injective : (m n : ℕ) → pos m ≡ pos n → m ≡ n
pos-injective m n h = ground arith

-- With a limit that is not negative the record of a task lists so many runs at most, and 100 at most;
-- with a negative one it lists 1000 at most, or there is no record, where the database refuses such a
-- limit. The runs are the first of the rows, and `consecutive_failures` counts those up to the first
-- that did not fail.
pub run_history-Recorded :
    (unlimited : Bool) (dag_id task_id : Text) (limit : ℤ) (rows : List TaskInstance)
    → Recorded unlimited limit rows (run_history unlimited dag_id task_id limit rows)
unfolding run_history limited on_rows
run_history-Recorded unlimited dag_id task_id (pos n) rows =
    subst (λ xs. IsRecordOf (pos n) rows (summarise_history dag_id task_id (map outcome_of xs)))
      (sym (take-take-min max_rows_ceiling (min n 100) rows))
      (summarise_history-IsRecordOf dag_id task_id (pos n) rows (min max_rows_ceiling (min n 100))
        (omega arith) (λ m e. let q = pos-injective n m e in (omega arith, omega arith)))
run_history-Recorded true dag_id task_id (negsuc n) rows =
    summarise_history-IsRecordOf dag_id task_id (negsuc n) rows max_rows_ceiling (omega arith)
      (λ m e. absurd (ground arith))
run_history-Recorded false dag_id task_id (negsuc n) rows = (refl, (n, refl))
