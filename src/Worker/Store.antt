-- ===== src/Worker/Store.antt =====
-- The agent's database and its repositories (src/dag_doctor/db/models.py and repositories.py). A
-- table is the list of its rows in the order of insertion; a UUID is a number. What a query orders by
-- is the order in which the rows were written, and is left out with the other reading queries.
use dag_doctor.Base.{
  ℕ, ◌+◌, ◌==◌, max, str_eq, Bool, true, false, ◌&&◌, Option, none, some, List, [], ◌∷◌, ◌++◌, map,
  keep, find, if◌then◌else◌,
}
use dag_doctor.Core.Models.{
  ℤ, pos, negsuc, IncidentStatus, received, FailureEvent, Evidence, Hypothesis, Diagnosis,
}
use dag_doctor.Graph.State.{StepRecord, InvestigationState}

-- `incidents`: the columns of the failure are one field.
pub record Incident : Type 0 where
  pub id : ℕ
  pub failure : FailureEvent
  pub status : IncidentStatus
  pub delivery_count : ℕ

pub record InvestigationStep : Type 0 where
  pub incident_id : ℕ
  pub attempt : ℕ
  pub sequence : ℕ
  pub step : StepRecord

pub record EvidenceRecord : Type 0 where
  pub incident_id : ℕ
  pub attempt : ℕ
  pub item : Evidence

pub record HypothesisRecord : Type 0 where
  pub incident_id : ℕ
  pub attempt : ℕ
  pub hypothesis : Hypothesis

pub record DiagnosisRecord : Type 0 where
  pub incident_id : ℕ
  pub attempt : ℕ
  pub diagnosis : Diagnosis

pub record Db : Type 0 where
  pub incidents : List Incident
  pub steps : List InvestigationStep
  pub evidence : List EvidenceRecord
  pub hypotheses : List HypothesisRecord
  pub diagnoses : List DiagnosisRecord

abbrev pub same_index : ℤ → ℤ → Bool
same_index (pos a) (pos b) = a == b
same_index (negsuc a) (negsuc b) = a == b
same_index _ _ = false

-- The tuple of `uq_incidents_identity`.
unfoldable pub same_failure : FailureEvent → FailureEvent → Bool
same_failure a b =
    str_eq a.dag_id b.dag_id
    && str_eq a.task_id b.task_id
    && str_eq a.run_id b.run_id
    && a.try_number == b.try_number
    && same_index a.map_index b.map_index

-- `IncidentRepository._find`
unfoldable pub find_incident : FailureEvent → List Incident → Option Incident
find_incident event rows = find (λ (row : Incident). same_failure event row.failure) rows

-- `IncidentRepository.get`
unfoldable pub get : ℕ → List Incident → Option Incident
get id rows = find (λ (row : Incident). row.id == id) rows

unfoldable pub update_row : ℕ → (Incident → Incident) → Incident → Incident
update_row id f row = if row.id == id then f row else row

-- An UPDATE of the row with an id.
unfoldable pub update : ℕ → (Incident → Incident) → List Incident → List Incident
update id f rows = map (update_row id f) rows

abbrev pub with_status : IncidentStatus → Incident → Incident
with_status status row = record row { status = status }

unfoldable pub set_status : ℕ → IncidentStatus → Db → Db
set_status id status db = record db { incidents = update id (with_status status) db.incidents }

-- What `get_or_create` comes to: the incident and whether the call created it, or the
-- `PersistenceError`.
pub data Obtained : Type 0 where
  obtained : Incident → (created : Bool) → Obtained
  persistence_error : Obtained

-- `_record_redelivery`: the count is written from the row as it was read.
unfoldable pub record_redelivery : Incident → Db → Obtained × Db
record_redelivery row db = (
  obtained (record row { delivery_count = row.delivery_count + 1 }) false,
  record db {
    incidents =
        update row.id (λ stored. record stored { delivery_count = row.delivery_count + 1 })
          db.incidents;
  },
)

abbrev pub new_incident : ℕ → FailureEvent → Incident
new_incident id event = record { id = id; failure = event; status = received; delivery_count = 1 }

unfoldable pub insert_unless : Option Incident → Option Incident → Incident → Db → Option Db
insert_unless none none row db = some (record db { incidents = db.incidents ++ row ∷ [] })
insert_unless _ _ row db = none

-- The INSERT; `none` is the `IntegrityError` of the unique tuple or of the primary key.
unfoldable pub insert : Incident → Db → Option Db
unfolding insert_unless
insert row db =
    insert_unless (find_incident row.failure db.incidents) (get row.id db.incidents) row db

unfoldable pub after_conflict : Option Incident → Db → Obtained × Db
unfolding record_redelivery
after_conflict (some concurrent) db = record_redelivery concurrent db
after_conflict none db = (persistence_error, db)

unfoldable pub on_insert : Incident → Db → Option Db → Obtained × Db
unfolding after_conflict
on_insert row db (some inserted) = (obtained row true, inserted)
on_insert row db none = after_conflict (find_incident row.failure db.incidents) db

unfoldable pub on_found : FailureEvent → ℕ → Db → Option Incident → Obtained × Db
unfolding record_redelivery on_insert
on_found event id db (some existing) = record_redelivery existing db
on_found event id db none = on_insert (new_incident id event) db (insert (new_incident id event) db)

-- `get_or_create`: the SELECT reads `seen`, and what follows meets `db`, in which other workers may
-- have written since.
unfoldable pub get_or_create : FailureEvent → ℕ → Db → Db → Obtained × Db
unfolding on_found
get_or_create event id seen db = on_found event id db (find_incident event seen.incidents)

abbrev pub highest : List ℕ → ℕ
highest [] = 0
highest (n ∷ ns) = max n (highest ns)

-- `next_attempt`
unfoldable pub next_attempt : ℕ → Db → ℕ
next_attempt id db =
    highest (
      map (λ (row : DiagnosisRecord). row.attempt)
        (keep (λ (row : DiagnosisRecord). row.incident_id == id) db.diagnoses))
    + 1

-- The step sequences of an incident.
unfoldable pub sequences : ℕ → List InvestigationStep → List ℕ
sequences id rows =
    map (λ (row : InvestigationStep). row.sequence)
      (keep (λ (row : InvestigationStep). row.incident_id == id) rows)

-- `_sequence_offset`
unfoldable pub sequence_offset : ℕ → Db → ℕ
sequence_offset id db = highest (sequences id db.steps)

unfoldable pub to_step : ℕ → ℕ → ℕ → StepRecord → InvestigationStep
to_step id attempt offset step = record {
  incident_id = id;
  attempt = attempt;
  sequence = offset + step.sequence;
  step = step;
}

abbrev pub to_record : ℕ → Option Diagnosis → List DiagnosisRecord
to_record attempt none = []
to_record attempt (some d) =
    record { incident_id = d.incident_id; attempt = attempt; diagnosis = d } ∷ []

-- `InvestigationRepository.save`
unfoldable pub save : InvestigationState → ℕ → Db → Db
save s attempt db = record db {
  steps =
      db.steps ++ map (to_step s.incident_id attempt (sequence_offset s.incident_id db)) s.steps;
  evidence =
      db.evidence
      ++ map
          (λ (item : Evidence). record {
            incident_id = s.incident_id;
            attempt = attempt;
            item = item;
          })
          s.evidence;
  hypotheses =
      db.hypotheses
      ++ map
          (λ (hypothesis : Hypothesis). record {
            incident_id = s.incident_id;
            attempt = attempt;
            hypothesis = hypothesis;
          })
          s.hypotheses;
  diagnoses = db.diagnoses ++ to_record attempt s.diagnosis;
}
