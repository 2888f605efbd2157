-- ===== src/Worker/Keys.antt =====
-- About the unique tuple of an incident and the updates that keep it (src/dag_doctor/db/models.py and
-- repositories.py).
use dag_doctor.Base.{
  ℕ, ◌==◌, str_eq, String, eq_iff, true, Option, none, some, List, map, [], ◌∷◌, ◌++◌, ◌≡◌, ap, ◌∙◌,
  refl, arith, if◌then◌else◌, Bool-cases, inl, inr,
}
use dag_doctor.Core.Models.{ℤ, pos, negsuc, FailureEvent}
use dag_doctor.Worker.Store.{Incident, same_index, same_failure, find_incident, update_row, update}

pub same_index_refl : (a : ℤ) → same_index a a ≡ true
same_index_refl (pos n) = ground arith
same_index_refl (negsuc n) = ground arith

pub same_index_sym : (a b : ℤ) → same_index a b ≡ same_index b a
same_index_sym (pos a) (pos b) = ground arith
same_index_sym (negsuc a) (negsuc b) = ground arith
same_index_sym (pos a) (negsuc b) = refl
same_index_sym (negsuc a) (pos b) = refl

pub str_eq_refl : (a : String) → str_eq a a ≡ true
str_eq_refl a = ground (arith, eq_iff a a)

pub str_eq_sym : (a b : String) → str_eq a b ≡ str_eq b a
str_eq_sym a b = ground (arith, eq_iff a b, eq_iff b a)

pub num_eq_sym : (a b : ℕ) → a == b ≡ b == a
num_eq_sym a b = ground arith

pub num_eq_refl : (a : ℕ) → a == a ≡ true
num_eq_refl a = ground arith

pub same_failure_refl : (a : FailureEvent) → same_failure a a ≡ true
unfolding same_failure
same_failure_refl a =
    rw
      (
        str_eq_refl a.dag_id,
        str_eq_refl a.task_id,
        str_eq_refl a.run_id,
        num_eq_refl a.try_number,
        same_index_refl a.map_index,
      )
      refl

pub same_failure_sym : (a b : FailureEvent) → same_failure a b ≡ same_failure b a
unfolding same_failure
same_failure_sym a b =
    rw
      (
        str_eq_sym a.dag_id b.dag_id,
        str_eq_sym a.task_id b.task_id,
        str_eq_sym a.run_id b.run_id,
        num_eq_sym a.try_number b.try_number,
        same_index_sym a.map_index b.map_index,
      )
      refl

-- An update that leaves ids and failures alone.
pub record KeepsIdentity (f : Incident → Incident) : Type 0 where
  pub same_id : (row : Incident) → (f row).id ≡ row.id
  pub same_event : (row : Incident) → (f row).failure ≡ row.failure

abbrev pub map_found : (Incident → Incident) → Option Incident → Option Incident
map_found f none = none
map_found f (some row) = some (f row)

pub update_row-failure :
    (id : ℕ) (f : Incident → Incident)
    → KeepsIdentity f
    → (row : Incident) → (update_row id f row).failure ≡ row.failure
unfolding update_row
update_row-failure id f k row = elim (Bool-cases (row.id == id)) [
  | inl e ↦ rw e (k.same_event row)
  | inr e ↦ rw e refl
]

-- What is found after an update is what was found, updated.
pub find_incident-update :
    (event : FailureEvent) (id : ℕ) (f : Incident → Incident) (rows : List Incident)
    → KeepsIdentity f
    → find_incident event (update id f rows)
      ≡ map_found (update_row id f) (find_incident event rows)
unfolding find_incident update
find_incident-update event id f [] k = refl
find_incident-update event id f (row ∷ rows) k =
    elim (Bool-cases (same_failure event row.failure)) [
      | inl e ↦ rw (ap (same_failure event) (update_row-failure id f k row) ∙ e, e) refl
      | inr e ↦
          rw (ap (same_failure event) (update_row-failure id f k row) ∙ e, e)
            (find_incident-update event id f rows k)
    ]

-- Rows whose failures are all different.
abbrev pub UniqueKeys : List Incident → Type 0
UniqueKeys [] = Unit {0}
UniqueKeys (row ∷ rows) = (find_incident row.failure rows ≡ none) × UniqueKeys rows

pub UniqueKeys-none :
    (event : FailureEvent) (id : ℕ) (f : Incident → Incident) (rows : List Incident)
    → KeepsIdentity f
    → find_incident event rows ≡ none
    → find_incident event (map (update_row id f) rows) ≡ none
unfolding update
UniqueKeys-none event id f rows k h =
    find_incident-update event id f rows k ∙ ap (map_found (update_row id f)) h

pub UniqueKeys-update :
    (id : ℕ) (f : Incident → Incident) (rows : List Incident)
    → KeepsIdentity f
    → UniqueKeys rows
    → UniqueKeys (update id f rows)
unfolding update
UniqueKeys-update id f [] k h = tt
UniqueKeys-update id f (row ∷ rows) k h = (
  rw (update_row-failure id f k row, UniqueKeys-none row.failure id f rows k h.0) refl,
  UniqueKeys-update id f rows k h.1,
)

pub find_incident-append :
    (event : FailureEvent) (rows : List Incident) (row : Incident)
    → find_incident event rows ≡ none
    → find_incident event (rows ++ row ∷ [])
      ≡ (if same_failure event row.failure then some row else none)
unfolding find_incident
find_incident-append event [] row h = refl
find_incident-append event (other ∷ rows) row h =
    elim (Bool-cases (same_failure event other.failure)) [
      | inl e ↦ absurd cc
      | inr e ↦ rw e (find_incident-append event rows row cc)
    ]

pub UniqueKeys-append :
    (rows : List Incident) (row : Incident)
    → UniqueKeys rows
    → find_incident row.failure rows ≡ none
    → UniqueKeys (rows ++ row ∷ [])
unfolding find_incident
UniqueKeys-append [] row h fresh = (refl, tt)
UniqueKeys-append (other ∷ rows) row h fresh =
    elim (Bool-cases (same_failure row.failure other.failure)) [
      | inl e ↦ absurd cc
      | inr e ↦ (
        find_incident-append other.failure rows row h.0
            ∙ rw (same_failure_sym other.failure row.failure, e) refl,
        UniqueKeys-append rows row h.1 cc,
      )
    ]
