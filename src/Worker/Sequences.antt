-- ===== src/Worker/Sequences.antt =====
-- About the numbering of steps over attempts (src/dag_doctor/db/repositories.py, save).
use dag_doctor.Base.{
  ℕ, suc, ◌+◌, ◌==◌, max, Bool-cases, inl, inr, true, false, List, [], ◌∷◌, ◌++◌, map, length, ◌≡◌,
  ap, sym, subst, ◌∙◌, refl, arith, Option,
}
use dag_doctor.Core.Models.{NodeName}
use dag_doctor.Graph.State.{StepRecord, InvestigationState}
use dag_doctor.Graph.Trace.{IsWalk, start, extend}
use dag_doctor.Worker.Store.{
  InvestigationStep, Db, highest, sequences, sequence_offset, to_step, save,
}

-- The numbers count up by one from `n`.
abbrev pub IsCounted : ℕ → List ℕ → Type 0
IsCounted n [] = Unit {0}
IsCounted n (x ∷ xs) = (x ≡ n) × IsCounted (suc n) xs

IsCounted-append :
    (n : ℕ) (xs ys : List ℕ)
    → IsCounted n xs
    → IsCounted (length xs + n) ys
    → IsCounted n (xs ++ ys)
IsCounted-append n [] ys h k = subst (λ m. IsCounted m ys) (omega arith) k
IsCounted-append n (x ∷ xs) ys h k =
    (h.0, IsCounted-append (suc n) xs ys h.1 (subst (λ m. IsCounted m ys) (omega arith) k))

highest-IsCounted :
    (n : ℕ) (xs : List ℕ) → IsCounted (suc n) xs → max n (highest xs) ≡ length xs + n
highest-IsCounted n [] h = omega arith
highest-IsCounted n (x ∷ xs) h = let ih = highest-IsCounted (suc n) xs h.1 in omega (arith, h.0)

abbrev pub numbers : List StepRecord → List ℕ
numbers steps = map (λ (step : StepRecord). step.sequence) steps

numbers-append : (xs ys : List StepRecord) → numbers (xs ++ ys) ≡ numbers xs ++ numbers ys
numbers-append [] ys = refl
numbers-append (x ∷ xs) ys = ap (λ t. x.sequence ∷ t) (numbers-append xs ys)

length-numbers : (xs : List StepRecord) → length (numbers xs) ≡ length xs
length-numbers [] = refl
length-numbers (x ∷ xs) = ap suc (length-numbers xs)

walk-IsCounted :
    (steps : List StepRecord) (next : Option NodeName)
    → IsWalk steps next
    → IsCounted 1 (numbers steps)
walk-IsCounted _ _ start = tt
walk-IsCounted _ _ (extend steps step next w q a) =
    subst (IsCounted 1) (sym (numbers-append steps (step ∷ []))) (
      IsCounted-append 1 (numbers steps) (step.sequence ∷ []) (walk-IsCounted steps _ w)
        (q ∙ ap (λ m. m + 1) (sym (length-numbers steps)), tt))

sequences-append :
    (id : ℕ) (xs ys : List InvestigationStep)
    → sequences id (xs ++ ys) ≡ sequences id xs ++ sequences id ys
unfolding sequences
sequences-append id [] ys = refl
sequences-append id (x ∷ xs) ys = elim (Bool-cases (x.incident_id == id)) [
  | inl e ↦ rw e (ap (λ t. x.sequence ∷ t) (sequences-append id xs ys))
  | inr e ↦ rw e (sequences-append id xs ys)
]

sequences-others :
    (id other attempt offset : ℕ) (steps : List StepRecord)
    → other == id ≡ false
    → sequences id (map (to_step other attempt offset) steps) ≡ []
unfolding sequences to_step
sequences-others id other attempt offset [] h = refl
sequences-others id other attempt offset (x ∷ xs) h =
    rw h (sequences-others id other attempt offset xs h)

sequences-own :
    (id other attempt offset n : ℕ) (steps : List StepRecord)
    → other == id ≡ true
    → IsCounted n (numbers steps)
    → IsCounted (offset + n) (sequences id (map (to_step other attempt offset) steps))
unfolding sequences to_step
sequences-own id other attempt offset n [] h k = tt
sequences-own id other attempt offset n (x ∷ xs) h k = rw h (
  ap (λ m. offset + m) k.0,
  subst (λ m. IsCounted m (sequences id (map (to_step other attempt offset) xs))) (omega arith)
      (sequences-own id other attempt offset (suc n) xs h k.1),
)

-- Saving the trace of a run keeps the steps of every incident numbered from 1 without a gap or a
-- repetition, whatever attempts were saved before, so that the unique constraint on the sequence is
-- never violated.
pub save-IsCounted :
    (s : InvestigationState) (attempt id : ℕ) (db : Db) (next : Option NodeName)
    → IsWalk s.steps next
    → IsCounted 1 (sequences id db.steps)
    → IsCounted 1 (sequences id (save s attempt db).steps)
unfolding save sequence_offset
save-IsCounted s attempt id db next w h =
    let offset = highest (sequences s.incident_id db.steps) in
    let added = map (to_step s.incident_id attempt offset) s.steps in
    subst (IsCounted 1) (sym (sequences-append id db.steps added))
      (elim (Bool-cases (s.incident_id == id)) [
        | inl e ↦
            let same : s.incident_id ≡ id = ground arith in
            let top = highest-IsCounted 0 (sequences id db.steps) h in
            let at : offset + 1 ≡ length (sequences id db.steps) + 1 =
              ap (λ i. highest (sequences i db.steps) + 1) same ∙ omega (arith, top) in
            IsCounted-append 1 (sequences id db.steps) (sequences id added) h (
              subst (λ m. IsCounted m (sequences id added)) at
                (sequences-own id s.incident_id attempt offset 1 s.steps e
                  (walk-IsCounted s.steps next w)))
        | inr e ↦ IsCounted-append 1 (sequences id db.steps) (sequences id added) h (
            subst (IsCounted (length (sequences id db.steps) + 1))
              (sym (sequences-others id s.incident_id attempt offset s.steps e)) tt)
      ])
