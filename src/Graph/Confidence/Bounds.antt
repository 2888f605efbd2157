-- ===== src/Graph/Confidence/Bounds.antt =====
-- About the terms and the total of the confidence (src/dag_doctor/graph/confidence.py).
use dag_doctor.Base.{
  ℕ, suc, ◌+◌, ◌-◌, ◌*◌, ◌/◌, ◌≤◌, ◌<◌, min, ◌≡◌, ◌↔◌, arith, refl, Text, String, contains, Option,
  none, some, List, [], ◌∷◌, ◌++◌, map, length, Bool, true, false, find, all, Bool-cases, inl, inr,
}
use dag_doctor.Core.Regex.{search_match}
use dag_doctor.Core.Models.{Hypothesis}
use dag_doctor.Graph.State.{InvestigationState, refuted_hypotheses}
use dag_doctor.Graph.Confidence.{
  compute_confidence, independent_tool_count, signature_term, hypothesis_term, evidence_term,
  penalty_term,
}
use dag_doctor.Graph.Confidence.Signatures.{Signature, known_signatures, haystack, match_signature}

-- Every known strength lies between one half and one.
abbrev Strong : List Signature → Type 0
Strong [] = Unit {0}
Strong (known ∷ rest) = (5000 ≤ known.strength) × (known.strength ≤ 10000) × Strong rest

known-Strong : Strong known_signatures
unfolding known_signatures
known-Strong = omega arith

find-strength :
    (p : Signature → Bool) (rest : List Signature) (found : Signature)
    → Strong rest
    → find p rest ≡ some found
    → (5000 ≤ found.strength) × (found.strength ≤ 10000)
find-strength p [] found h e = cc
find-strength p (known ∷ rest) found h e = ground (arith, find-strength p rest found h.2)

pub match_signature-strength :
    (exception_type message : Option Text) (found : Signature)
    → match_signature exception_type message ≡ some found
    → (5000 ≤ found.strength) × (found.strength ≤ 10000)
unfolding match_signature
match_signature-strength exception_type message found e = ground (
  arith,
  find-strength (λ known. search_match known.pattern (haystack exception_type message))
      known_signatures found known-Strong,
)

signature_term-le :
    (found : Option Signature)
    → ((known : Signature) → found ≡ some known → known.strength ≤ 10000)
    → signature_term found ≤ 2000
unfolding signature_term
signature_term-le none h = omega arith
signature_term-le (some known) h = omega (arith, h known refl)

pub hypothesis_term-le : (h : Option Hypothesis) → hypothesis_term h ≤ 3000
unfolding hypothesis_term
hypothesis_term-le none = omega arith
hypothesis_term-le (some h) = ground arith

pub evidence_term-le : (tools : ℕ) → evidence_term tools ≤ 3500
unfolding evidence_term
evidence_term-le tools = omega arith

pub penalty_term-le : (refuted : ℕ) → penalty_term refuted ≤ 1500
unfolding penalty_term
penalty_term-le refuted = omega arith

module _ (s : InvestigationState) where
  abbrev pub signature : Option Signature
  signature = match_signature s.failure.exception_type s.failure.exception_message

  pub signature-le : signature_term signature ≤ 2000
  signature-le = signature_term-le signature (λ known e.
      (match_signature-strength s.failure.exception_type s.failure.exception_message known e).1)

  -- The terms of the breakdown add up to the total exactly, with the penalty taken off: the clamp to
  -- the range from zero to one never changes anything, and the total is at most one.
  pub compute_confidence_exact :
      ((compute_confidence s).total + (compute_confidence s).penalty
        ≡ 1500
          + (compute_confidence s).signature_match
          + (compute_confidence s).hypothesis_test
          + (compute_confidence s).evidence_support)
      × ((compute_confidence s).total ≤ 10000)
  unfolding compute_confidence
  compute_confidence_exact =
      let terms = signature-le in
      omega (
        arith,
        hypothesis_term-le s.current_hypothesis,
        evidence_term-le (independent_tool_count s),
        penalty_term-le (length (refuted_hypotheses s)),
      )

pub ruleset term_bounds = (arith, hypothesis_term-le, evidence_term-le, penalty_term-le)
