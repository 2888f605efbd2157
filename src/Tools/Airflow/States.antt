-- ===== src/Tools/Airflow/States.antt =====
-- About the states of the tasks upstream of a task (src/dag_doctor/tools/airflow_metadata.py,
-- GetUpstreamTaskState).
use dag_doctor.Base.{
  ◌≡◌, refl, sym, ap, ◌∙◌, arith, inl, inr, Bool-cases, Bool, true, false, not, Option, none, some,
  List, [], ◌∷◌, map, keep, any, Text, same_text, has_text, text_lt, same_text_eq, same_text_sym,
  if◌then◌else◌,
}
use dag_doctor.Tools.Upstream.{Edges, upstream_of}
use dag_doctor.Tools.Upstream.Rounds.{enough}
use dag_doctor.Tools.Upstream.Ancestors.{IsAncestor, upstream_of-IsAncestor}
use dag_doctor.Tools.Airflow.{
  TaskInstance, TaskState, UpstreamState, state_of, put_state, states_of, is_unsuccessful, no_text,
  earliest_genuine_failure, upstream_state,
}

abbrev or_state : Option TaskState → Option TaskState → Option TaskState
or_state none b = b
or_state (some a) b = some a

-- What the states say of a task.
abbrev pub state_in : Text → List TaskState → Option TaskState
state_in id [] = none
state_in id (t ∷ ts) = let rest = state_in id ts in if same_text id t.task_id then some t else rest

-- What the rows of a run say of a task: its last row.
abbrev pub last_row : Text → List TaskInstance → Option TaskState
last_row id [] = none
last_row id (row ∷ rows) =
    or_state (last_row id rows) (if same_text id row.task_id then some (state_of row) else none)

state_in-put_state :
    (id : Text) (t : TaskState) (ts : List TaskState)
    → state_in id (put_state t ts) ≡ (if same_text id t.task_id then some t else state_in id ts)
unfolding put_state
state_in-put_state id t [] = refl
state_in-put_state id t (u ∷ us) = elim (Bool-cases (same_text t.task_id u.task_id)) [
  | inl e ↦
      let q : same_text id u.task_id ≡ same_text id t.task_id =
        ap (same_text id) (sym (same_text_eq t.task_id u.task_id e)) in
      rw e (ground arith)
  | inr e ↦ rw e (elim (Bool-cases (text_lt t.task_id u.task_id)) [
    | inl l ↦ rw l refl
    | inr l ↦
        rw (l, state_in-put_state id t us)
          (elim (Bool-cases (same_text id u.task_id)) [
            | inl h ↦
                let q : same_text id t.task_id ≡ false =
                  ap (λ z. same_text z t.task_id) (same_text_eq id u.task_id h)
                  ∙ (same_text_sym u.task_id t.task_id ∙ e) in
                rw (h, q) refl
            | inr h ↦ rw h refl
          ])
  ])
]

or_state_assoc : (a b c : Option TaskState) → or_state (or_state a b) c ≡ or_state a (or_state b c)
or_state_assoc none b c = refl
or_state_assoc (some a) b c = refl

or_state-none : (a : Option TaskState) → or_state a none ≡ a
or_state-none none = refl
or_state-none (some a) = refl

state_in-states_of :
    (ids : List Text) (rows : List TaskInstance) (known : List TaskState) (id : Text)
    → state_in id (states_of ids rows known) ≡ (
        if has_text id ids
        then or_state (last_row id rows) (state_in id known)
        else state_in id known)
unfolding states_of
state_in-states_of ids [] known id = ground arith
state_in-states_of ids (row ∷ rows) known id = elim (Bool-cases (has_text row.task_id ids)) [
  | inl e ↦
      rw
        (
          e,
          state_in-states_of ids rows (put_state (state_of row) known) id,
          state_in-put_state id (state_of row) known,
        )
        (elim (Bool-cases (same_text id row.task_id)) [
          | inl h ↦
              let q : has_text id ids ≡ true =
                ap (λ z. has_text z ids) (same_text_eq id row.task_id h) ∙ e in
              rw (h, q)
                (sym (or_state_assoc (last_row id rows) (some (state_of row)) (state_in id known)))
          | inr h ↦ rw (h, or_state-none (last_row id rows)) refl
        ])
  | inr e ↦
      rw (e, state_in-states_of ids rows known id)
        (elim (Bool-cases (same_text id row.task_id)) [
          | inl h ↦
              let q : has_text id ids ≡ false =
                ap (λ z. has_text z ids) (same_text_eq id row.task_id h) ∙ e in
              rw q refl
          | inr h ↦ rw (h, or_state-none (last_row id rows)) refl
        ])
]

abbrev unsuccessful : TaskState → Bool
unsuccessful t = is_unsuccessful t.state

no_text-any :
    (ts : List TaskState)
    → no_text
        (map (λ (t : TaskState). t.task_id) (keep (λ (t : TaskState). is_unsuccessful t.state) ts))
      ≡ not (any unsuccessful ts)
no_text-any [] = refl
no_text-any (t ∷ ts) = elim (Bool-cases (is_unsuccessful t.state)) [
  | inl e ↦ rw e refl
  | inr e ↦ rw e (no_text-any ts)
]

-- What the tool says of a run: each task upstream with its last state, and no other task.
pub record IsUpstreamOf (downstream : List Edges) (task_id : Text) (rows : List TaskInstance)
    (out : UpstreamState) : Type 0 where
  pub ancestors_only :
      (id : Text) (t : TaskState)
      → state_in id out.upstream ≡ some t
      → IsAncestor downstream task_id id × (last_row id rows ≡ some t)
  pub all_ancestors :
      (id : Text) → IsAncestor downstream task_id id → state_in id out.upstream ≡ last_row id rows
  pub succeeded : out.all_upstream_succeeded ≡ not (any unsuccessful out.upstream)
  pub root : out.root_failure ≡ earliest_genuine_failure out.upstream

when_found :
    (b : Bool) (o : Option TaskState) (t : TaskState)
    → (if b then o else none) ≡ some t
    → (b ≡ true) × (o ≡ some t)
when_found true o t h = (refl, h)
when_found false o t h = absurd (ground arith)

state_in-upstream :
    (ids : List Text) (rows : List TaskInstance) (id : Text)
    → state_in id (upstream_state ids rows).upstream
      ≡ (if has_text id ids then last_row id rows else none)
unfolding upstream_state
state_in-upstream ids rows id =
    state_in-states_of ids rows [] id
    ∙ ap (λ o. if has_text id ids then o else none) (or_state-none (last_row id rows))

-- On any graph of tasks, the search ends, and the tool reports, for the rows of a run, every task
-- that is reached by going up from the failing one with the state of its last row, and no other task;
-- it says that all of them succeeded exactly if none of them is failed, upstream_failed, skipped or
-- removed.
pub upstream_state-IsUpstreamOf :
    (downstream : List Edges) (task_id : Text) (rows : List TaskInstance)
    → (found : List Text) × (upstream_of downstream (enough downstream task_id) task_id
        ≡ some found)
      × IsUpstreamOf downstream task_id rows (upstream_state found rows)
unfolding upstream_state
upstream_state-IsUpstreamOf downstream task_id rows =
    let (found, ends, exactly) = upstream_of-IsAncestor downstream task_id in
    (
      found,
      ends,
      record {
        ancestors_only = λ id t h.
            let seen =
              when_found (has_text id found) (last_row id rows) t
                (sym (state_in-upstream found rows id) ∙ h) in
            ((exactly id).0 seen.0, seen.1);
        all_ancestors = λ id up.
            state_in-upstream found rows id
            ∙ ap (λ b. if b then last_row id rows else none) ((exactly id).1 up);
        succeeded = no_text-any (states_of found rows []);
        root = refl;
      },
    )
