-- ===== src/Worker/Investigator/Announcement.antt =====
-- About the announcement of a diagnosis (src/dag_doctor/worker/investigator.py, _announce).
use dag_doctor.Base.{
  ℕ, ◌*◌, Bool, true, false, not, ◌&&◌, Option, none, some, List, [], ◌∷◌, ◌++◌, ◌≡◌, ap, sym,
  subst, refl, Bool-cases, inl, inr,
}
use dag_doctor.Core.Models.{FailureEvent, Diagnosis, investigating}
use dag_doctor.Graph.State.{InvestigationState}
use dag_doctor.Graph.Builder.{initial_state, run_graph}
use dag_doctor.Messaging.Schemas.{DiagnosisCompletedMessage, from_diagnosis}
use dag_doctor.Worker.Store.{
  Incident, Db, DiagnosisRecord, get, set_status, Obtained, obtained, persistence_error,
  get_or_create, save, to_record,
}
use dag_doctor.Worker.Investigator.{
  World, Machinery, ran, crashed, dag_doctor_error, is_terminal, halted, Ending, skipped, raised,
  Handled, finish, run_investigation, on_incident, investigate, on_obtained, handle, untouched,
  finished, announce,
}

abbrev handled_or : Handled → Option Handled → Handled
handled_or x none = x
handled_or x (some y) = y

module _ (w : World) (event : FailureEvent) where
  -- The message is drawn from the diagnosis that the store has as its last.
  abbrev pub IsRecorded : DiagnosisCompletedMessage → Db → Type 0
  IsRecorded m db =
      (before : List DiagnosisRecord) × (row : DiagnosisRecord) × (db.diagnoses
        ≡ before ++ row ∷ [])
      × (m ≡ from_diagnosis row.diagnosis event.dag_id event.task_id event.run_id row.attempt)

  abbrev Announces : Handled → Type 0
  Announces result =
      (m : DiagnosisCompletedMessage) → result.announced ≡ m ∷ [] → IsRecorded m result.db

  abbrev AllAnnounce : Option Handled → Type 0
  AllAnnounce o = (result : Handled) → o ≡ some result → Announces result

  one-AllAnnounce : (x : Handled) → Announces x → AllAnnounce (some x)
  one-AllAnnounce x h result e = subst Announces (ap (handled_or x) e) h

  untouched-AllAnnounce : (ending : Ending) (db : Db) → AllAnnounce (some (untouched ending db))
  untouched-AllAnnounce ending db = one-AllAnnounce (untouched ending db) (λ m e. absurd cc)

  none-AllAnnounce : AllAnnounce none
  none-AllAnnounce result e = absurd cc

  abbrev message_or :
      DiagnosisCompletedMessage → List DiagnosisCompletedMessage → DiagnosisCompletedMessage
  message_or x [] = x
  message_or x (y ∷ ys) = y

  announce-recorded :
      (has_publisher : Bool) (attempt : ℕ) (o : Option Diagnosis) (before : List DiagnosisRecord)
      (m : DiagnosisCompletedMessage)
      → announce has_publisher event attempt o ≡ m ∷ []
      → (row : DiagnosisRecord) × (before ++ to_record attempt o ≡ before ++ row ∷ [])
        × (m ≡ from_diagnosis row.diagnosis event.dag_id event.task_id event.run_id row.attempt)
  announce-recorded has_publisher attempt none before m e = absurd cc
  announce-recorded false attempt (some d) before m e = absurd cc
  announce-recorded true attempt (some d) before m e = (
    record { incident_id = d.incident_id; attempt = attempt; diagnosis = d },
    refl,
    sym (ap (message_or m) e),
  )

  finish-Announces :
      (id attempt : ℕ) (db : Db) (s : InvestigationState)
      → Announces (finish w event id attempt db s)
  unfolding finish save set_status
  finish-Announces id attempt db s m e =
      let (row, stored, drawn) =
        announce-recorded w.has_publisher attempt s.diagnosis db.diagnoses m e in
      (db.diagnoses, row, stored, drawn)

  finished-AllAnnounce :
      (id attempt : ℕ) (db : Db) (o : Option InvestigationState)
      → AllAnnounce (finished w event id attempt db o)
  finished-AllAnnounce id attempt db none = none-AllAnnounce
  finished-AllAnnounce id attempt db (some s) =
      one-AllAnnounce (finish w event id attempt db s) (finish-Announces id attempt db s)

  run_investigation-AllAnnounce :
      (id attempt : ℕ) (db : Db) (m : Machinery)
      → AllAnnounce (run_investigation w event id attempt db m)
  unfolding run_investigation
  run_investigation-AllAnnounce id attempt db crashed = untouched-AllAnnounce raised db
  run_investigation-AllAnnounce id attempt db (dag_doctor_error message) =
      one-AllAnnounce _
        (finish-Announces id attempt db (halted (initial_state id event w.budgets) message))
  run_investigation-AllAnnounce id attempt db ran =
      finished-AllAnnounce id attempt db
        (run_graph w.caller w.box w.budgets (3 * w.budgets.max_iterations) id event)

  on_incident-AllAnnounce :
      (id : ℕ) (db : Db) (o : Option Incident) → AllAnnounce (on_incident w event id db o)
  unfolding on_incident
  on_incident-AllAnnounce id db none = untouched-AllAnnounce raised db
  on_incident-AllAnnounce id db (some incident) =
      run_investigation-AllAnnounce id _ (set_status id investigating db) _

  on_obtained-AllAnnounce : (o : Obtained) (db : Db) → AllAnnounce (on_obtained w event o db)
  unfolding on_obtained investigate
  on_obtained-AllAnnounce persistence_error db = untouched-AllAnnounce raised db
  on_obtained-AllAnnounce (obtained incident created) db =
      elim (Bool-cases (not created && is_terminal incident.status)) [
        | inl e ↦ rw e (untouched-AllAnnounce skipped db)
        | inr e ↦ rw e (on_incident-AllAnnounce incident.id db (get incident.id db.incidents))
      ]

-- Whatever a delivery comes to, a message that it announces is drawn from the diagnosis that the
-- store has as its last, with the same attempt number and the failure's own identity.
pub handle-IsRecorded :
    (w : World) (event : FailureEvent) (id : ℕ) (db : Db) (result : Handled)
    (m : DiagnosisCompletedMessage)
    → handle w event id db ≡ some result
    → result.announced ≡ m ∷ []
    → IsRecorded w event m result.db
unfolding handle
handle-IsRecorded w event id db result m e a =
    on_obtained-AllAnnounce w event (get_or_create event id db db).0
      (get_or_create event id db db).1 result e m a
