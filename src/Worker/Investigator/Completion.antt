-- ===== src/Worker/Investigator/Completion.antt =====
-- About the end of an investigation (src/dag_doctor/worker/investigator.py, _run_investigation).
use dag_doctor.Base.{ℕ, Option, none, some, ◌≡◌, refl}
use dag_doctor.Core.Models.{FailureEvent, investigating}
use dag_doctor.Core.Settings.{IsValid}
use dag_doctor.Graph.Termination.{run_graph_total}
use dag_doctor.Worker.Store.{Incident, Db, set_status}
use dag_doctor.Worker.Investigator.{
  World, Machinery, ran, crashed, dag_doctor_error, Handled, run_investigation, on_incident,
}

abbrev pub Ends : Option Handled → Type 0
Ends o = (result : Handled) × (o ≡ some result)

module _ (w : World) (event : FailureEvent) (valid : IsValid w.budgets) where
  run_investigation-Ends :
      (id attempt : ℕ) (db : Db) (m : Machinery) → Ends (run_investigation w event id attempt db m)
  unfolding run_investigation
  run_investigation-Ends id attempt db crashed = (_, refl)
  run_investigation-Ends id attempt db (dag_doctor_error message) = (_, refl)
  run_investigation-Ends id attempt db ran =
      let (t, e, few) = run_graph_total w.caller w.box w.budgets id event valid in rw e (_, refl)

  pub on_incident-Ends :
      (id : ℕ) (db : Db) (o : Option Incident) → Ends (on_incident w event id db o)
  unfolding on_incident
  on_incident-Ends id db none = (_, refl)
  on_incident-Ends id db (some incident) =
      run_investigation-Ends id _ (set_status id investigating db) _
