-- ===== src/Tools/Similar/Ranking.antt =====
-- About the matches that a search gives (src/dag_doctor/tools/similar_incidents.py,
-- SearchSimilarIncidents.execute).
use mathlib.Core.List.{Perm}
use mathlib.Core.List.Perm
use dag_doctor.Base.{
  ◌++◌, ℕ, ◌≤◌, ◌<◌, max, Text, false, List, [], ◌∷◌, map, keep, length, take, ◌≡◌, ◌⊎◌, some,
  Among,
}
use dag_doctor.Tools.Signature.{signature_tokens}
use dag_doctor.Tools.Similar.Overlap.{overlaps}
use dag_doctor.Tools.Similar.{
  Candidate, Diagnosed, SimilarIncident, score_of, or_empty, outranks, SimilarIncidentsInput,
  SimilarIncidents, fits_type,
}

-- A match may come before another: it is more similar, or as similar and no older.
abbrev pub Precedes : SimilarIncident → SimilarIncident → Type 0
Precedes m n =
    (n.similarity < m.similarity)
    ⊎ ((n.similarity ≡ m.similarity) × (n.incident.received_at ≤ m.incident.received_at))

abbrev pub PrecedesAll : SimilarIncident → List SimilarIncident → Type 0
PrecedesAll m [] = Unit {0}
PrecedesAll m (n ∷ ns) = Precedes m n × PrecedesAll m ns

abbrev pub IsDescending : List SimilarIncident → Type 0
IsDescending [] = Unit {0}
IsDescending (m ∷ ms) = PrecedesAll m ms × IsDescending ms

-- None of the matches outranks a given one.
abbrev AllBelow : SimilarIncident → List SimilarIncident → Type 0
AllBelow m [] = Unit {0}
AllBelow m (n ∷ ns) = (outranks n m ≡ false) × AllBelow m ns

abbrev IsRanked : List SimilarIncident → Type 0
IsRanked [] = Unit {0}
IsRanked (m ∷ ms) = AllBelow m ms × IsRanked ms

-- The candidate of a match.
abbrev pub candidate : SimilarIncident → Candidate
candidate m = m.incident

-- The tokens of a candidate.
abbrev pub tokens_of : Candidate → List Text
tokens_of c = signature_tokens (or_empty c.exception_type ++ (32 ∷ or_empty c.exception_message))

module _ (thousandths : ℕ × ℕ → ℕ) (wanted : List Text) (diagnoses : List Diagnosed) where
  -- A match that is as similar as it says, and has a diagnosis only of its own incident.
  abbrev pub IsMatch : SimilarIncident → Type 0
  IsMatch m =
      (m.similarity ≡ thousandths (score_of wanted m.incident))
      × ((d : Diagnosed)
          → m.diagnosis ≡ some d
          → Among d diagnoses × (d.incident_id ≡ m.incident.incident_id))

  abbrev pub AllMatch : List SimilarIncident → Type 0
  AllMatch [] = Unit {0}
  AllMatch (m ∷ ms) = IsMatch m × AllMatch ms

-- What a search gives: the first of an order of the similar candidates.
pub record IsSearch (thousandths : ℕ × ℕ → ℕ) (request : SimilarIncidentsInput)
    (incidents : List Candidate) (diagnoses : List Diagnosed) (out : SimilarIncidents)
    : Type 0 where
  pub order : List SimilarIncident
  pub descending : IsDescending order
  pub complete : Perm (map candidate order) (
      keep
        (λ c. overlaps (signature_tokens request.error_signature) (tokens_of c))
        (take 200
          (keep (λ (c : Candidate). fits_type request.exception_type c.exception_type) incidents)))
  pub all_match : AllMatch thousandths (signature_tokens request.error_signature) diagnoses order
  pub first_ones : out.matches ≡ take (max request.limit 1) order
  pub bounded : (length out.matches ≤ max request.limit 1) × (out.searched ≤ 200)
