-- ===== src/Tools/Similar.antt =====
-- The search for failures that look like one (src/dag_doctor/tools/similar_incidents.py). A similarity
-- is a numerator and a denominator; its rounding to thousandths is a parameter.
pub mod Overlap
pub mod Ranking
use dag_doctor.Base.{
  ℕ, zero, suc, ◌+◌, ◌-◌, ◌*◌, ◌==◌, ltb, leb, min, max, Text, codes, same_text, has_text,
  sorted_set, place_name, ◌≡◌, refl, Bool, true, false, not, ◌&&◌, ◌||◌, Option, none, some, List,
  [], ◌∷◌, ◌++◌, map, keep, length, take, if◌then◌else◌,
}
use dag_doctor.Tools.Signature.{signature_tokens}

pub record Candidate : Type 0 where
  pub incident_id : ℕ
  pub dag_id : Text
  pub task_id : Text
  pub exception_type : Option Text
  pub exception_message : Option Text
  pub received_at : ℕ

-- What a diagnosis row says of its incident.
pub record Diagnosed : Type 0 where
  pub incident_id : ℕ
  pub created_at : ℕ
  pub summary : Text
  pub proposed_fix : Option Text
  pub human_verdict : Option Bool

pub record SimilarIncident : Type 0 where
  pub incident : Candidate
  pub similarity : ℕ
  pub diagnosis : Option Diagnosed

abbrev pub shared : List Text → List Text → List Text
shared left right = keep (λ t. has_text t right) left

-- `len(left & right)` and `len(left | right)`
unfoldable pub jaccard : List Text → List Text → ℕ × ℕ
jaccard [] right = (0, 1)
jaccard (l ∷ left) [] = (0, 1)
jaccard (l ∷ left) (r ∷ right) =
    let both = length (shared (l ∷ left) (r ∷ right)) in
    (both, length (l ∷ left) + length (r ∷ right) - both)

-- `score < MIN_SIMILARITY`, a quarter.
abbrev pub too_low : ℕ × ℕ → Bool
too_low (both, all_of) = ltb (4 * both) all_of

abbrev pub or_empty : Option Text → Text
or_empty none = []
or_empty (some t) = t

abbrev pub score_of : List Text → Candidate → ℕ × ℕ
score_of wanted c =
    jaccard wanted
      (signature_tokens (or_empty c.exception_type ++ (32 ∷ or_empty c.exception_message)))

-- `dict.get` on the rows in the order of their making: the last of an incident.
unfoldable pub diagnosis_of : ℕ → List Diagnosed → Option Diagnosed
diagnosis_of id [] = none
diagnosis_of id (d ∷ ds) = elim (diagnosis_of id ds) [
  | some later ↦ some later
  | none ↦ if d.incident_id == id then some d else none
]

module _ (thousandths : ℕ × ℕ → ℕ) where
  -- `_to_match`
  unfoldable pub to_match : List Text → List Diagnosed → Candidate → SimilarIncident
  unfolding diagnosis_of
  to_match wanted diagnoses c = record {
    incident = c;
    similarity = thousandths (score_of wanted c);
    diagnosis = diagnosis_of c.incident_id diagnoses;
  }

  -- The loop over the candidates.
  unfoldable pub matches_of : List Text → List Diagnosed → List Candidate → List SimilarIncident
  unfolding to_match
  matches_of wanted diagnoses candidates =
      map (to_match wanted diagnoses) (keep (λ c. not (too_low (score_of wanted c))) candidates)

-- Whether a match comes before another in the sort by similarity and time, downwards.
unfoldable pub outranks : SimilarIncident → SimilarIncident → Bool
outranks a b =
    ltb b.similarity a.similarity
    || b.similarity == a.similarity && ltb b.incident.received_at a.incident.received_at

-- A stable sort: of equals, the first stays first.
unfoldable pub place_match : SimilarIncident → List SimilarIncident → List SimilarIncident
place_match m [] = m ∷ []
place_match m (n ∷ ns) =
    let rest = place_match m ns in if outranks n m then n ∷ rest else m ∷ n ∷ ns

unfoldable pub ranked : List SimilarIncident → List SimilarIncident
unfolding place_match
ranked [] = []
ranked (m ∷ ms) = place_match m (ranked ms)

pub record SimilarIncidentsInput : Type 0 where
  pub error_signature : Text
  pub exception_type : Option Text
  pub limit : ℕ

pub record SimilarIncidents : Type 0 where
  pub signature : List Text
  pub matches : List SimilarIncident
  pub searched : ℕ

abbrev pub candidate_limit : ℕ
candidate_limit = 200

-- The condition on the exception type: none where none, or an empty one, is asked for.
unfoldable pub fits_type : Option Text → Option Text → Bool
fits_type none t = true
fits_type (some []) t = true
fits_type (some (c ∷ s)) none = true
fits_type (some (c ∷ s)) (some t) = same_text t (c ∷ s)

-- `_candidates`, of the incidents with the latest first.
unfoldable pub candidates_of : SimilarIncidentsInput → List Candidate → List Candidate
unfolding fits_type
candidates_of request incidents =
    take candidate_limit
      (keep (λ (c : Candidate). fits_type request.exception_type c.exception_type) incidents)

-- `SearchSimilarIncidents.execute`, from the incidents with the latest first and the diagnoses in the
-- order of their making.
unfoldable pub search :
    (ℕ × ℕ → ℕ) → SimilarIncidentsInput → List Candidate → List Diagnosed → SimilarIncidents
unfolding candidates_of matches_of ranked signature_tokens
search thousandths request incidents diagnoses =
    let wanted = signature_tokens request.error_signature in
    let candidates = candidates_of request incidents in
    record {
      signature = wanted;
      matches =
          take (max request.limit 1) (ranked (matches_of thousandths wanted diagnoses candidates));
      searched = length candidates;
    }
