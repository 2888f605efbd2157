-- ===== src/Graph/Confidence/Growth.antt =====
-- About the confidence when evidence is added (src/dag_doctor/graph/confidence.py).
use dag_doctor.Base.{
  ℕ, ◌≤◌, ◌≡◌, arith, refl, ap, true, ◌||◌, List, [], ◌∷◌, ◌++◌, map, keep, length, contains,
  String, eq_iff, Bool-cases, inl, inr, append-nil,
}
use dag_doctor.Core.Models.{Evidence}
use dag_doctor.Graph.State.{InvestigationState, successful_evidence, refuted_hypotheses}
use dag_doctor.Graph.Confidence.{
  compute_confidence, distinct_from, independent_tool_count, evidence_term,
}

distinct_from_mono :
    (seen xs ys : List String)
    → length (distinct_from seen xs) ≤ length (distinct_from seen (xs ++ ys))
unfolding distinct_from
distinct_from_mono seen [] ys = omega arith
distinct_from_mono seen (x ∷ xs) ys =
    ground (arith, distinct_from_mono seen xs ys, distinct_from_mono (x ∷ seen) xs ys)

-- A name that was seen adds no member.
distinct_from-seen :
    (seen xs : List String) (y : String)
    → contains y seen || contains y xs ≡ true
    → distinct_from seen (xs ++ y ∷ []) ≡ distinct_from seen xs
unfolding distinct_from
distinct_from-seen seen [] y h = ground arith
distinct_from-seen seen (x ∷ xs) y h = ground (
  arith,
  distinct_from-seen seen xs y,
  distinct_from-seen (x ∷ seen) xs y,
  eq_iff y x,
  eq_iff x y,
)

unfoldable pub tool_names : List Evidence → List String
tool_names items =
    map (λ (item : Evidence). item.tool_name) (keep (λ (item : Evidence). item.succeeded) items)

tool_names-append : (xs ys : List Evidence) → tool_names (xs ++ ys) ≡ tool_names xs ++ tool_names ys
unfolding tool_names
tool_names-append [] ys = refl
tool_names-append (x ∷ xs) ys = ground (arith, tool_names-append xs ys)

module _ (s : InvestigationState) (more : List Evidence) where
  abbrev pub with_evidence : InvestigationState
  with_evidence = record s { evidence = s.evidence ++ more }

  count_mono : independent_tool_count s ≤ independent_tool_count with_evidence
  unfolding independent_tool_count successful_evidence tool_names
  count_mono =
      rw (tool_names-append s.evidence more)
        (distinct_from_mono [] (tool_names s.evidence) (tool_names more))

evidence_term_mono : (a b : ℕ) → a ≤ b → evidence_term a ≤ evidence_term b
unfolding evidence_term
evidence_term_mono a b h = omega arith

-- More evidence never lowers the confidence.
pub compute_confidence_mono :
    (s : InvestigationState) (more : List Evidence)
    → (compute_confidence s).total ≤ (compute_confidence (with_evidence s more)).total
unfolding compute_confidence refuted_hypotheses
compute_confidence_mono s more =
    let grows =
      evidence_term_mono (independent_tool_count s) (independent_tool_count (with_evidence s more))
        (count_mono s more) in
    omega arith

count_repeat :
    (s : InvestigationState) (item : Evidence)
    → contains item.tool_name (tool_names s.evidence) ≡ true
    → independent_tool_count (with_evidence s (item ∷ [])) ≡ independent_tool_count s
unfolding independent_tool_count successful_evidence tool_names
count_repeat s item h =
    rw (tool_names-append s.evidence (item ∷ [])) (elim (Bool-cases item.succeeded) [
      | inl e ↦ rw e (ap length (distinct_from-seen [] (tool_names s.evidence) item.tool_name h))
      | inr e ↦ rw e (rw append-nil)
    ])

-- Evidence from a tool that has already given usable evidence leaves the confidence as it was.
pub compute_confidence-repeat :
    (s : InvestigationState) (item : Evidence)
    → contains item.tool_name (tool_names s.evidence) ≡ true
    → (compute_confidence (with_evidence s (item ∷ []))).total ≡ (compute_confidence s).total
unfolding compute_confidence refuted_hypotheses
compute_confidence-repeat s item h = rw (count_repeat s item h)
