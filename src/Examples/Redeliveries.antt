-- ===== src/Examples/Redeliveries.antt =====
-- Deliveries of the sample failure to a worker.
use dag_doctor.Base.{◌≡◌, refl, arith, true, none, some, codes, [], ◌∷◌}
use dag_doctor.Core.Models.{Diagnosis, unknown, investigation_error, investigating}
use dag_doctor.Core.Settings.{IsValid}
use dag_doctor.Messaging.Schemas.{DiagnosisCompletedMessage, from_diagnosis}
use dag_doctor.Graph.State.{InvestigationState}
use dag_doctor.Graph.Builder.{initial_state}
use dag_doctor.Worker.Store.{
  Incident, Db, find_incident, get, insert, insert_unless, on_insert, on_found, get_or_create,
  with_status, new_incident, update, update_row, set_status, next_attempt,
}
use dag_doctor.Worker.Keys.{UniqueKeys}
use dag_doctor.Worker.Incidents.{IsResolved, get_or_create-IsResolved}
use dag_doctor.Worker.Investigator.{
  World, ran, dag_doctor_error, halted, Handled, investigated, finish, run_investigation,
  on_incident, investigate, on_obtained, handle,
}
use dag_doctor.Worker.Investigator.Redelivery.{IsSkipped, redelivery-IsSkipped}
use dag_doctor.Worker.Investigator.Announcement.{IsRecorded, handle-IsRecorded}
use dag_doctor.Api.Incidents.{replied, accept, replay_incident, run_replay}
use dag_doctor.Api.Incidents.Replay.{IsBeside, run_replay-IsBeside}
use dag_doctor.Examples.Samples.{orders_failure, box, budgets, confirming}

abbrev working : World
working = record {
  caller = confirming;
  box = box;
  budgets = budgets;
  machinery = λ s. ran;
  has_publisher = true;
}

-- The same worker, whose checkpointer fails.
abbrev failing : World
failing = record working { machinery = λ s. dag_doctor_error (codes "no checkpointer") }

abbrev empty : Db
empty = record { incidents = []; steps = []; evidence = []; hypotheses = []; diagnoses = [] }

-- Another worker has inserted the failure under the id 3.
abbrev raced : Db
raced = record empty { incidents = new_incident 3 orders_failure ∷ [] }

valid : IsValid budgets
valid = omega arith

raced_unused : get 4 raced.incidents ≡ none
unfolding get
raced_unused = refl

raced_UniqueKeys : UniqueKeys raced.incidents
unfolding find_incident
raced_UniqueKeys = (refl, tt)

nothing_seen :
    (row : Incident)
    → find_incident orders_failure empty.incidents ≡ some row
    → (now : Incident) × (find_incident orders_failure raced.incidents ≡ some now)
      × (now.id ≡ row.id)
unfolding find_incident
nothing_seen row e = absurd cc

get_or_create-IsResolved_example :
    IsResolved orders_failure raced (get_or_create orders_failure 4 empty raced)
get_or_create-IsResolved_example =
    get_or_create-IsResolved orders_failure 4 raced raced_UniqueKeys empty raced_unused nothing_seen

empty_unused : get 4 empty.incidents ≡ none
unfolding get
empty_unused = refl

abbrev opened : Db
opened = record empty { incidents = with_status investigating (new_incident 4 orders_failure) ∷ [] }

abbrev stopped : InvestigationState
stopped = halted (initial_state 4 orders_failure budgets) (codes "no checkpointer")

abbrev first : Handled
first = finish failing orders_failure 4 1 opened stopped

first_handled : handle failing orders_failure 4 empty ≡ some first
unfolding handle on_obtained investigate on_incident run_investigation get_or_create on_found
    on_insert insert insert_unless find_incident get update update_row set_status next_attempt
first_handled = refl

first_investigated : first.ending ≡ investigated stopped.diagnosis
unfolding finish
first_investigated = refl

redelivery-IsSkipped_example :
    (second : Handled) × (handle failing orders_failure 5 first.db ≡ some second)
    × IsSkipped failing orders_failure first.db second
redelivery-IsSkipped_example =
    redelivery-IsSkipped failing orders_failure 4 5 empty first stopped.diagnosis tt empty_unused
      first_handled first_investigated

abbrev unable : Diagnosis
unable = record {
  incident_id = 4;
  root_cause_category = unknown;
  summary = codes "The investigation could not run: no checkpointer";
  confidence = 0;
  halt_reason = investigation_error;
  evidence_chain = [];
  proposed_fix = none;
  responsible_dag_id = none;
  responsible_task_id = none;
  unknowns = codes "no checkpointer" ∷ [];
  model_used = "";
}

abbrev told : DiagnosisCompletedMessage
told = from_diagnosis unable "schema_drift_orders" "build_orders_by_customer" "manual__1" 1

first_announced : first.announced ≡ told ∷ []
unfolding finish halted initial_state
first_announced = refl

handle-IsRecorded_example : IsRecorded failing orders_failure told first.db
handle-IsRecorded_example =
    handle-IsRecorded failing orders_failure 4 empty first told first_handled first_announced

abbrev known : Incident
known = new_incident 3 orders_failure

known_found : get 3 raced.incidents ≡ some known
unfolding get
known_found = refl

known_accepted : replay_incident true 3 raced ≡ replied 1
unfolding replay_incident accept get next_attempt
known_accepted = refl

run_replay-IsBeside_example :
    (result : Handled) × (run_replay working known raced ≡ some result) × IsBeside raced 1 result
run_replay-IsBeside_example =
    run_replay-IsBeside working known raced 1 valid known_found known_accepted
