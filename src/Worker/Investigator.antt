-- ===== src/Worker/Investigator.antt =====
-- Running one incident (src/dag_doctor/worker/investigator.py): one delivery at a time. Metrics and
-- logs change nothing that is kept and are left out.
pub mod Redelivery
pub mod Announcement
pub mod Completion
use dag_doctor.Base.{
  ℕ, ◌*◌, ◌++◌, str_eq, String, Text, codes, Bool, true, false, not, ◌&&◌, Option, none, some, List,
  [], ◌∷◌, if◌then◌else◌,
}
use dag_doctor.Core.Models.{
  FailureEvent, Diagnosis, is_conclusive, HaltReason, investigation_error, unknown, IncidentStatus,
  received, investigating, diagnosed, inconclusive, failed,
}
use dag_doctor.Core.Settings.{BudgetSettings}
use dag_doctor.Graph.State.{InvestigationState}
use dag_doctor.Graph.Toolbox.{Toolbox}
use dag_doctor.Graph.Caller.{ModelCaller}
use dag_doctor.Graph.Builder.{initial_state, run_graph}
use dag_doctor.Messaging.Schemas.{DiagnosisCompletedMessage, from_diagnosis}
use dag_doctor.Worker.Store.{
  Incident, Db, get, set_status, Obtained, obtained, persistence_error, get_or_create, next_attempt,
  save,
}

-- How the machinery around the graph (LangGraph, its checkpointer) ends a run: it lets the nodes run,
-- or it raises.
pub data Machinery : Type 0 where
  ran crashed : Machinery
  dag_doctor_error : (message : Text) → Machinery

-- What the investigator is made of, and what it meets.
pub record World : Type 0 where
  pub caller : ModelCaller
  pub box : Toolbox
  pub budgets : BudgetSettings
  pub machinery : InvestigationState → Machinery
  pub has_publisher : Bool

-- `_TERMINAL`
unfoldable pub is_terminal : IncidentStatus → Bool
is_terminal received = false
is_terminal investigating = false
is_terminal _ = true

abbrev is_error : Option HaltReason → Bool
is_error (some investigation_error) = true
is_error _ = false

unfoldable pub status_of : InvestigationState → Option Diagnosis → IncidentStatus
status_of s none = failed
status_of s (some d) =
    if is_error s.halt_reason then failed else if is_conclusive d then diagnosed else inconclusive

-- `_status_for`
unfoldable pub status_for : InvestigationState → IncidentStatus
unfolding status_of
status_for s = status_of s s.diagnosis

-- `_halted`
unfoldable pub halted : InvestigationState → Text → InvestigationState
halted s error = record s {
  halt_reason = some investigation_error;
  unknowns = (codes "The investigation could not run: " ++ error) ∷ [];
  diagnosis = some (record {
    incident_id = s.incident_id;
    root_cause_category = unknown;
    summary = codes "The investigation could not run: " ++ error;
    confidence = 0;
    halt_reason = investigation_error;
    evidence_chain = [];
    proposed_fix = none;
    responsible_dag_id = none;
    responsible_task_id = none;
    unknowns = error ∷ [];
    model_used = "";
  });
}

-- `handle` returned, having skipped or investigated the incident; or it raised.
pub data Ending : Type 0 where
  skipped raised : Ending
  investigated : Option Diagnosis → Ending

-- What a call leaves: how it ended, the store, and what the publisher was given.
pub record Handled : Type 0 where
  pub ending : Ending
  pub db : Db
  pub announced : List DiagnosisCompletedMessage

-- `_announce`
abbrev pub announce : Bool → FailureEvent → ℕ → Option Diagnosis → List DiagnosisCompletedMessage
announce has_publisher event attempt none = []
announce has_publisher event attempt (some d) =
    if has_publisher
    then from_diagnosis d event.dag_id event.task_id event.run_id attempt ∷ []
    else []

abbrev pub untouched : Ending → Db → Handled
untouched ending db = record { ending = ending; db = db; announced = [] }

module _ (w : World) (event : FailureEvent) where
  -- The second transaction, and the announcement after it.
  unfoldable pub finish : ℕ → ℕ → Db → InvestigationState → Handled
  finish id attempt db s = record {
    ending = investigated s.diagnosis;
    db = set_status id (status_for s) (save s attempt db);
    announced = announce w.has_publisher event attempt s.diagnosis;
  }

  abbrev pub finished : ℕ → ℕ → Db → Option InvestigationState → Option Handled
  finished id attempt db none = none
  finished id attempt db (some s) = some (finish id attempt db s)

  -- `_run_graph`; the fuel is enough for every accepted budget.
  unfoldable pub run_investigation : ℕ → ℕ → Db → Machinery → Option Handled
  run_investigation id attempt db crashed = some (untouched raised db)
  run_investigation id attempt db (dag_doctor_error message) =
      some (finish id attempt db (halted (initial_state id event w.budgets) message))
  run_investigation id attempt db ran =
      finished id attempt db
        (run_graph w.caller w.box w.budgets (3 * w.budgets.max_iterations) id event)

  unfoldable pub on_incident : ℕ → Db → Option Incident → Option Handled
  on_incident id db none = some (untouched raised db)
  on_incident id db (some incident) =
      let opened = set_status id investigating db in
      run_investigation id (next_attempt id opened) opened
        (w.machinery (initial_state id event w.budgets))

  -- `investigate`; `none` means that the fuel ran out.
  unfoldable pub investigate : ℕ → Db → Option Handled
  investigate id db = on_incident id db (get id db.incidents)

  unfoldable pub on_obtained : Obtained → Db → Option Handled
  on_obtained persistence_error db = some (untouched raised db)
  on_obtained (obtained incident created) db =
      let run = investigate incident.id db in
      if not created && is_terminal incident.status then some (untouched skipped db) else run

  -- `handle`, where a new incident gets the id `id`.
  unfoldable pub handle : ℕ → Db → Option Handled
  handle id db = on_obtained (get_or_create event id db db).0 (get_or_create event id db db).1
