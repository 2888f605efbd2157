-- ===== src/Api/Incidents.antt =====
-- The routes of one incident (src/dag_doctor/api/v1/routes/incidents.py). What `app.state.replay`
-- runs is the investigation of the worker, in the background, after the answer.
pub mod Replay
use dag_doctor.Base.{
  ℕ, ◌==◌, ltb, max, Bool, true, false, Option, none, some, List, [], ◌∷◌, ◌++◌, map, keep,
  if◌then◌else◌,
}
use dag_doctor.Core.Models.{FailureEvent}
use dag_doctor.Worker.Store.{
  Incident, Db, DiagnosisRecord, InvestigationStep, EvidenceRecord, HypothesisRecord, get,
  next_attempt,
}
use dag_doctor.Worker.History.{latest_diagnosis}
use dag_doctor.Worker.Investigator.{World, Handled, investigate}

-- An answer, or the `ResourceNotFoundError`, or the `ConfigValidationError` of an API that has no
-- model provider.
pub data Reply {ℓ} (A : Type ℓ) : Type ℓ where
  replied : A → Reply A
  not_found not_configured : Reply A

pub record IncidentDetail : Type 0 where
  pub incident : Incident
  pub diagnosis : Option DiagnosisRecord

unfoldable pub detail_of : ℕ → Db → Option Incident → Reply IncidentDetail
detail_of id db none = not_found
detail_of id db (some incident) =
    replied (record { incident = incident; diagnosis = latest_diagnosis id db })

-- `get_incident`, with `_require`.
unfoldable pub get_incident : ℕ → Db → Reply IncidentDetail
unfolding detail_of
get_incident id db = detail_of id db (get id db.incidents)

unfoldable pub accept : Bool → ℕ → Db → Option Incident → Reply ℕ
accept can_replay id db none = not_found
accept can_replay id db (some incident) =
    if can_replay then replied (next_attempt id db) else not_configured

-- `replay_incident`: the attempt number that is promised.
unfoldable pub replay_incident : Bool → ℕ → Db → Reply ℕ
unfolding accept
replay_incident can_replay id db = accept can_replay id db (get id db.incidents)

-- `_event_of`
abbrev pub event_of : Incident → FailureEvent
event_of incident = incident.failure

-- The task in the background, for an incident as it was read (`_build_replay` in api/main.py): its
-- investigator has no publisher.
unfoldable pub run_replay : World → Incident → Db → Option Handled
run_replay w incident db =
    investigate (record w { has_publisher = false }) (event_of incident) incident.id db
