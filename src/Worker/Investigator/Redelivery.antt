-- ===== src/Worker/Investigator/Redelivery.antt =====
-- About a failure that is delivered again (src/dag_doctor/worker/investigator.py, handle).
use dag_doctor.Base.{
  ℕ, ◌==◌, ◌*◌, Bool, true, not, ◌&&◌, Option, none, some, [], ◌≡◌, ap, subst, ◌∙◌, refl, arith,
  Bool-cases, inl, inr,
}
use dag_doctor.Core.Models.{FailureEvent, Diagnosis, IncidentStatus, investigating}
use dag_doctor.Graph.State.{InvestigationState}
use dag_doctor.Graph.Builder.{initial_state, run_graph}
use dag_doctor.Worker.Store.{
  Incident, Db, find_incident, get, update_row, with_status, set_status, obtained,
  record_redelivery, get_or_create, on_found, save,
}
use dag_doctor.Worker.Keys.{KeepsIdentity, find_incident-update, map_found, UniqueKeys}
use dag_doctor.Worker.Incidents.{update_row-id, get_or_create-IsResolved}
use dag_doctor.Worker.Investigator.{
  World, Machinery, ran, crashed, dag_doctor_error, is_terminal, status_of, status_for, halted,
  Ending, skipped, raised, investigated, Handled, finish, run_investigation, on_incident,
  investigate, on_obtained, handle, untouched, finished,
}

status_of-terminal :
    (s : InvestigationState) (d : Option Diagnosis) → is_terminal (status_of s d) ≡ true
unfolding status_of is_terminal
status_of-terminal s none = refl
status_of-terminal s (some d) = ground arith

status_for-terminal : (s : InvestigationState) → is_terminal (status_for s) ≡ true
unfolding status_for
status_for-terminal s = status_of-terminal s s.diagnosis

status-KeepsIdentity : (status : IncidentStatus) → KeepsIdentity (with_status status)
status-KeepsIdentity status = record { same_id = λ row. refl; same_event = λ row. refl }

-- The failure has an incident with this id.
abbrev IsKnown : FailureEvent → ℕ → Db → Type 0
IsKnown event id db =
    (row : Incident) × (find_incident event db.incidents ≡ some row) × (row.id ≡ id)

-- The failure has an incident whose investigation is over.
abbrev pub IsSettled : FailureEvent → Db → Type 0
IsSettled event db =
    (row : Incident) × (find_incident event db.incidents ≡ some row)
    × (is_terminal row.status ≡ true)

set_status-IsKnown :
    (event : FailureEvent) (id : ℕ) (status : IncidentStatus) (db : Db)
    → IsKnown event id db
    → IsKnown event id (set_status id status db)
unfolding set_status
set_status-IsKnown event id status db (row, found, same) =
    let k = status-KeepsIdentity status in
    (
      update_row id (with_status status) row,
      find_incident-update event id (with_status status) db.incidents k
          ∙ ap (map_found (update_row id (with_status status))) found,
      update_row-id id (with_status status) k row ∙ same,
    )

set_status-IsSettled :
    (event : FailureEvent) (id : ℕ) (status : IncidentStatus) (db : Db)
    → IsKnown event id db
    → is_terminal status ≡ true
    → IsSettled event (set_status id status db)
unfolding set_status update_row
set_status-IsSettled event id status db (row, found, same) h =
    let k = status-KeepsIdentity status in
    let here : row.id == id ≡ true = ground arith in
    (
      update_row id (with_status status) row,
      find_incident-update event id (with_status status) db.incidents k
          ∙ ap (map_found (update_row id (with_status status))) found,
      rw here h,
    )

module _ (w : World) (event : FailureEvent) where
  -- Whatever a call comes to, an investigation that it made leaves the incident settled.
  abbrev Settles : Option Handled → Type 0
  Settles o =
      (result : Handled) (d : Option Diagnosis)
      → o ≡ some result
      → result.ending ≡ investigated d
      → IsSettled event result.db

  abbrev handled_or : Handled → Option Handled → Handled
  handled_or x none = x
  handled_or x (some y) = y

  settled-Settles : (x : Handled) → IsSettled event x.db → Settles (some x)
  settled-Settles x h result d e i =
      subst (λ (r : Handled). IsSettled event r.db) (ap (handled_or x) e) h

  untouched-Settles :
      (ending : Ending) (db : Db)
      → ((d : Option Diagnosis) → ¬ (ending ≡ investigated d))
      → Settles (some (untouched ending db))
  untouched-Settles ending db h result d e i =
      absurd (h d (ap (λ o. (handled_or (untouched ending db) o).ending) e ∙ i))

  raised-Settles : (db : Db) → Settles (some (untouched raised db))
  raised-Settles db = untouched-Settles raised db (λ d q. absurd cc)

  nothing-Settles : Settles none
  nothing-Settles result d e i = absurd cc

  finish-IsSettled :
      (id attempt : ℕ) (db : Db) (s : InvestigationState)
      → IsKnown event id db
      → IsSettled event (finish w event id attempt db s).db
  unfolding finish save
  finish-IsSettled id attempt db s known =
      set_status-IsSettled event id (status_for s) (save s attempt db) known (status_for-terminal s)

  finished-Settles :
      (id attempt : ℕ) (db : Db) (o : Option InvestigationState)
      → IsKnown event id db
      → Settles (finished w event id attempt db o)
  finished-Settles id attempt db none known = nothing-Settles
  finished-Settles id attempt db (some s) known =
      settled-Settles (finish w event id attempt db s) (finish-IsSettled id attempt db s known)

  run_investigation-Settles :
      (id attempt : ℕ) (db : Db) (m : Machinery)
      → IsKnown event id db
      → Settles (run_investigation w event id attempt db m)
  unfolding run_investigation
  run_investigation-Settles id attempt db crashed known = raised-Settles db
  run_investigation-Settles id attempt db (dag_doctor_error message) known =
      settled-Settles _
        (finish-IsSettled id attempt db (halted (initial_state id event w.budgets) message) known)
  run_investigation-Settles id attempt db ran known =
      finished-Settles id attempt db
        (run_graph w.caller w.box w.budgets (3 * w.budgets.max_iterations) id event) known

  on_incident-Settles :
      (id : ℕ) (db : Db) (o : Option Incident)
      → IsKnown event id db
      → Settles (on_incident w event id db o)
  unfolding on_incident
  on_incident-Settles id db none known = raised-Settles db
  on_incident-Settles id db (some incident) known =
      run_investigation-Settles id _ (set_status id investigating db) _
        (set_status-IsKnown event id investigating db known)

  on_obtained-Settles :
      (incident : Incident) (created : Bool) (db : Db)
      → IsKnown event incident.id db
      → Settles (on_obtained w event (obtained incident created) db)
  unfolding on_obtained investigate
  on_obtained-Settles incident created db known =
      elim (Bool-cases (not created && is_terminal incident.status)) [
        | inl e ↦ rw e (untouched-Settles skipped db (λ d q. absurd cc))
        | inr e ↦ rw e (on_incident-Settles incident.id db (get incident.id db.incidents) known)
      ]

  handle-Settles :
      (id : ℕ) (db : Db)
      → UniqueKeys db.incidents
      → get id db.incidents ≡ none
      → Settles (handle w event id db)
  unfolding handle
  handle-Settles id db unique fresh =
      let resolved =
        get_or_create-IsResolved event id db unique db fresh (λ row found. (row, found, refl)) in
      rw resolved.answered (
        on_obtained-Settles resolved.incident _ (get_or_create event id db db).1
          (resolved.stored, resolved.found, resolved.same_incident))

  -- What a redelivery changes: nothing but the incidents' rows.
  abbrev pub IsSkipped : Db → Handled → Type 0
  IsSkipped db second =
      (second.ending ≡ skipped)
      × (second.announced ≡ [])
      × (second.db.steps ≡ db.steps)
      × (second.db.evidence ≡ db.evidence)
      × (second.db.hypotheses ≡ db.hypotheses)
      × (second.db.diagnoses ≡ db.diagnoses)

  settled_skips :
      (id : ℕ) (db : Db)
      → IsSettled event db
      → (second : Handled) × (handle w event id db ≡ some second) × IsSkipped db second
  unfolding handle get_or_create on_found record_redelivery on_obtained
  settled_skips id db (row, found, over) = (
    untouched skipped (record_redelivery row db).1,
    rw (found, over) refl,
    (refl, refl, refl, refl, refl, refl),
  )

-- In a store without duplicate failures, let a delivery lead to an investigation. Then the same
-- failure delivered again is skipped: no graph is run, nothing is announced, and the steps, evidence,
-- hypotheses and diagnoses stay as they were.
pub redelivery-IsSkipped :
    (w : World) (event : FailureEvent) (id other : ℕ) (db : Db) (first : Handled)
    (d : Option Diagnosis)
    → UniqueKeys db.incidents
    → get id db.incidents ≡ none
    → handle w event id db ≡ some first
    → first.ending ≡ investigated d
    → (second : Handled) × (handle w event other first.db ≡ some second)
      × IsSkipped w event first.db second
redelivery-IsSkipped w event id other db first d unique fresh e i =
    settled_skips w event other first.db (handle-Settles w event id db unique fresh first d e i)
