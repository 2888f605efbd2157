-- ===== src/Api/Incidents/Replay.antt =====
-- About what a replay adds to the database (src/dag_doctor/api/v1/routes/incidents.py,
-- replay_incident).
use dag_doctor.Base.{
  ℕ, ◌==◌, Bool, true, false, Option, none, some, List, [], ◌∷◌, ◌++◌, map, all, append-nil, ◌≡◌,
  refl, sym, ap, subst, ◌*◌, ◌∙◌, arith,
}
use dag_doctor.Core.Models.{FailureEvent, Diagnosis, investigating}
use dag_doctor.Graph.State.{InvestigationState}
use dag_doctor.Graph.Builder.{initial_state, run_graph}
use dag_doctor.Worker.Store.{
  Incident, Db, InvestigationStep, EvidenceRecord, HypothesisRecord, get, set_status, next_attempt,
  save, to_step, to_record, sequence_offset,
}
use dag_doctor.Worker.Investigator.{
  World, Machinery, ran, crashed, dag_doctor_error, Ending, raised, investigated, Handled, halted,
  finish, finished, run_investigation, on_incident, investigate,
}
use dag_doctor.Core.Settings.{IsValid}
use dag_doctor.Worker.Investigator.Completion.{on_incident-Ends}
use dag_doctor.Api.Incidents.{Reply, replied, replay_incident, accept, run_replay}

abbrev pub diagnosis_of : Ending → Option Diagnosis
diagnosis_of (investigated d) = d
diagnosis_of _ = none

-- Rows that a run adds, each under its attempt.
abbrev pub Adds {ℓ} : {A : Type ℓ} → (A → ℕ) → ℕ → List A → List A → Type ℓ
Adds attempt_of n before after =
    (new : List _) × (after ≡ before ++ new) × (all (λ row. attempt_of row == n) new ≡ true)

-- What a replay leaves: every row of the four tables where it was, and behind them the rows of one
-- attempt, the diagnosis of the ending among them.
pub record IsBeside (before : Db) (n : ℕ) (h : Handled) : Type 0 where
  pub steps_kept : Adds (λ (row : InvestigationStep). row.attempt) n before.steps h.db.steps
  pub evidence_kept : Adds (λ (row : EvidenceRecord). row.attempt) n before.evidence h.db.evidence
  pub hypotheses_kept :
      Adds (λ (row : HypothesisRecord). row.attempt) n before.hypotheses h.db.hypotheses
  pub diagnosed : h.db.diagnoses ≡ before.diagnoses ++ to_record n (diagnosis_of h.ending)

all-map :
    {A B : Type 0} (p : B → Bool) (f : A → B) (xs : List A)
    → ((x : A) → p (f x) ≡ true)
    → all p (map f xs) ≡ true
all-map p f [] h = refl
all-map p f (x ∷ xs) h = rw (h x) (all-map p f xs h)

same_number : (n : ℕ) → n == n ≡ true
same_number n = ground arith

module _ (w : World) (event : FailureEvent) (id : ℕ) (db : Db) (n : ℕ) where
  finish-IsBeside :
      (s : InvestigationState)
      → IsBeside db n (finish w event id n (set_status id investigating db) s)
  unfolding finish save set_status to_step
  finish-IsBeside s = record {
    steps_kept = (
      map (to_step s.incident_id n (sequence_offset s.incident_id (set_status id investigating db)))
          s.steps,
      refl,
      all-map _ _ s.steps (λ x. same_number n),
    );
    evidence_kept = (_, refl, all-map _ _ s.evidence (λ x. same_number n));
    hypotheses_kept = (_, refl, all-map _ _ s.hypotheses (λ x. same_number n));
    diagnosed = refl;
  }

  -- A run that raised has changed the status of the incident and nothing else.
  raised-IsBeside :
      IsBeside db n
        (record { ending = raised; db = set_status id investigating db; announced = [] })
  unfolding set_status
  raised-IsBeside = record {
    steps_kept = ([], sym (append-nil db.steps), refl);
    evidence_kept = ([], sym (append-nil db.evidence), refl);
    hypotheses_kept = ([], sym (append-nil db.hypotheses), refl);
    diagnosed = sym (append-nil db.diagnoses);
  }

  abbrev or_handled : Handled → Option Handled → Handled
  or_handled d none = d
  or_handled d (some h) = h

  is-IsBeside : (h result : Handled) → some h ≡ some result → IsBeside db n h → IsBeside db n result
  is-IsBeside h result e b = subst (IsBeside db n) (ap (or_handled h) e) b

  finished-IsBeside :
      (run : Option InvestigationState) (result : Handled)
      → finished w event id n (set_status id investigating db) run ≡ some result
      → IsBeside db n result
  finished-IsBeside none result e = absurd (ground arith)
  finished-IsBeside (some s) result e = is-IsBeside _ result e (finish-IsBeside s)

  run_investigation-IsBeside :
      (machinery : Machinery) (result : Handled)
      → run_investigation w event id n (set_status id investigating db) machinery ≡ some result
      → IsBeside db n result
  unfolding run_investigation
  run_investigation-IsBeside crashed result e = is-IsBeside _ result e raised-IsBeside
  run_investigation-IsBeside (dag_doctor_error message) result e =
      is-IsBeside _ result e (finish-IsBeside (halted (initial_state id event w.budgets) message))
  run_investigation-IsBeside ran result e =
      finished-IsBeside (run_graph w.caller w.box w.budgets (3 * w.budgets.max_iterations) id event)
        result e

next_attempt-set_status :
    (id : ℕ) (db : Db) → next_attempt id (set_status id investigating db) ≡ next_attempt id db
unfolding next_attempt set_status
next_attempt-set_status id db = refl

on_incident-IsBeside :
    (w : World) (event : FailureEvent) (id : ℕ) (db : Db) (incident : Incident) (result : Handled)
    → on_incident w event id db (some incident) ≡ some result
    → IsBeside db (next_attempt id db) result
unfolding on_incident
on_incident-IsBeside w event id db incident result e =
    subst (λ n. IsBeside db n result) (next_attempt-set_status id db)
      (run_investigation-IsBeside w event id db (next_attempt id (set_status id investigating db))
        (w.machinery (initial_state id event w.budgets)) result e)

abbrev or_zero : Reply ℕ → ℕ
or_zero (replied n) = n
or_zero _ = 0

abbrev without_publisher : World → World
without_publisher w = record w { has_publisher = false }

-- Under accepted budgets, where the API accepts a replay of an incident under an attempt number and
-- the investigation then runs on the same rows, it ends. Every step, piece of evidence, hypothesis
-- and diagnosis of earlier attempts is where it was; what is added behind them is all of the attempt
-- that was promised, and the diagnosis that the run comes to is the one row that is added to the
-- diagnoses.
pub run_replay-IsBeside :
    (w : World) (incident : Incident) (db : Db) (n : ℕ)
    → IsValid w.budgets
    → get incident.id db.incidents ≡ some incident
    → replay_incident true incident.id db ≡ replied n
    → (result : Handled) × (run_replay w incident db ≡ some result) × IsBeside db n result
unfolding run_replay investigate replay_incident accept
run_replay-IsBeside w incident db n valid found accepted =
    let promised : next_attempt incident.id db ≡ n =
      ap or_zero (sym (ap (accept true incident.id db) found) ∙ accepted) in
    let quiet = without_publisher w in
    let same = ap (on_incident quiet incident.failure incident.id db) found in
    let ends = on_incident-Ends quiet incident.failure valid incident.id db (some incident) in
    (
      ends.0,
      same ∙ ends.1,
      subst (λ m. IsBeside db m ends.0) promised
          (on_incident-IsBeside quiet incident.failure incident.id db incident ends.0 ends.1),
    )
