-- ===== src/Worker/History.antt =====
-- About the diagnosis of the most recent attempt (src/dag_doctor/db/repositories.py,
-- latest_diagnosis). Rows with equal attempts, of which the query may give either, count from the
-- first.
use dag_doctor.Base.{
  ℕ, ◌==◌, ◌<◌, ltb, true, Option, none, some, List, [], ◌∷◌, ◌++◌, map, keep, ◌≡◌, refl, arith,
  if◌then◌else◌,
}
use dag_doctor.Core.Models.{Diagnosis}
use dag_doctor.Graph.State.{InvestigationState}
use dag_doctor.Worker.Store.{Db, DiagnosisRecord, highest, next_attempt, save}

-- ORDER BY attempt DESC LIMIT 1
unfoldable pub newest : List DiagnosisRecord → Option DiagnosisRecord
newest [] = none
newest (row ∷ rows) = elim (newest rows) [
  | none ↦ some row
  | some later ↦ if ltb row.attempt later.attempt then some later else some row
]

abbrev pub rows_of : ℕ → List DiagnosisRecord → List DiagnosisRecord
rows_of id rows = keep (λ (row : DiagnosisRecord). row.incident_id == id) rows

unfoldable pub latest_diagnosis : ℕ → Db → Option DiagnosisRecord
unfolding newest
latest_diagnosis id db = newest (rows_of id db.diagnoses)

abbrev attempts : List DiagnosisRecord → List ℕ
attempts rows = map (λ (row : DiagnosisRecord). row.attempt) rows

rows_of-append :
    (id : ℕ) (xs ys : List DiagnosisRecord) → rows_of id (xs ++ ys) ≡ rows_of id xs ++ rows_of id ys
rows_of-append id [] ys = refl
rows_of-append id (x ∷ xs) ys = ground (arith, rows_of-append id xs ys)

newest-last :
    (rows : List DiagnosisRecord) (row : DiagnosisRecord)
    → highest (attempts rows) < row.attempt
    → newest (rows ++ row ∷ []) ≡ some row
unfolding newest
newest-last [] row h = refl
newest-last (x ∷ rows) row h = rw (newest-last rows row (omega arith)) (ground arith)

-- A diagnosis that is saved under the attempt number drawn for its incident is from then on the
-- incident's latest one.
pub latest_diagnosis-save :
    (s : InvestigationState) (db : Db) (d : Diagnosis)
    → s.diagnosis ≡ some d
    → (row : DiagnosisRecord) × (latest_diagnosis d.incident_id
          (save s (next_attempt d.incident_id db) db)
        ≡ some row)
      × (row.diagnosis ≡ d)
      × (row.attempt ≡ next_attempt d.incident_id db)
unfolding latest_diagnosis save next_attempt
latest_diagnosis-save s db d e =
    let row : DiagnosisRecord = record {
      incident_id = d.incident_id;
      attempt = next_attempt d.incident_id db;
      diagnosis = d;
    } in
    let own : d.incident_id == d.incident_id ≡ true = ground arith in
    (
      row,
      rw (e, rows_of-append d.incident_id db.diagnoses (row ∷ []), own)
          (newest-last (rows_of d.incident_id db.diagnoses) row (omega arith)),
      refl,
      refl,
    )
