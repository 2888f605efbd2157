-- ===== src/Worker/Incidents.antt =====
-- About the identity of incidents (src/dag_doctor/db/repositories.py, get_or_create).
use dag_doctor.Base.{
  ℕ, ◌+◌, ◌==◌, Bool, true, false, Option, none, some, [], ◌∷◌, ◌++◌, ◌≡◌, ap, ◌∙◌, refl,
  Bool-cases, Option-cases, inl, inr,
}
use dag_doctor.Core.Models.{FailureEvent}
use dag_doctor.Worker.Store.{
  Incident, Db, find_incident, get, update_row, Obtained, obtained, record_redelivery, new_incident,
  insert, insert_unless, on_insert, on_found, after_conflict, get_or_create,
}
use dag_doctor.Worker.Keys.{
  KeepsIdentity, UniqueKeys, UniqueKeys-append, UniqueKeys-update, find_incident-append,
  find_incident-update, map_found, same_failure_refl,
}

abbrev pub is_absent : Option Incident → Bool
is_absent none = true
is_absent (some row) = false

-- What `get_or_create` promises for a failure in a store: an incident and no error, created if there
-- was none; the store then has the incident under the failure, and no failure twice.
pub record IsResolved (event : FailureEvent) (db : Db) (result : Obtained × Db) : Type 0 where
  pub incident : Incident
  pub answered : result.0 ≡ obtained incident (is_absent (find_incident event db.incidents))
  pub stored : Incident
  pub found : find_incident event result.1.incidents ≡ some stored
  pub same_incident : stored.id ≡ incident.id
  pub unique : UniqueKeys result.1.incidents

counted-KeepsIdentity : (n : ℕ) → KeepsIdentity (λ stored. record stored { delivery_count = n })
counted-KeepsIdentity n = record { same_id = λ row. refl; same_event = λ row. refl }

pub update_row-id :
    (id : ℕ) (f : Incident → Incident)
    → KeepsIdentity f
    → (row : Incident) → (update_row id f row).id ≡ row.id
unfolding update_row
update_row-id id f k row = elim (Bool-cases (row.id == id)) [
  | inl e ↦ rw e (k.same_id row)
  | inr e ↦ rw e refl
]

module _ (event : FailureEvent) (id : ℕ) (db : Db) (unique : UniqueKeys db.incidents) where
  record_redelivery-IsResolved :
      (row now : Incident)
      → find_incident event db.incidents ≡ some now
      → now.id ≡ row.id
      → IsResolved event db (record_redelivery row db)
  unfolding record_redelivery
  record_redelivery-IsResolved row now found same =
      let k = counted-KeepsIdentity (row.delivery_count + 1) in
      let f : Incident → Incident =
        λ stored. record stored { delivery_count = row.delivery_count + 1 } in
      record {
        incident = record row { delivery_count = row.delivery_count + 1 };
        answered = rw found refl;
        stored = update_row row.id f now;
        found =
            find_incident-update event row.id f db.incidents k
            ∙ ap (map_found (update_row row.id f)) found;
        same_incident = update_row-id row.id f k now ∙ same;
        unique = UniqueKeys-update row.id f db.incidents k unique;
      }

  insert-fresh :
      find_incident event db.incidents ≡ none
      → get id db.incidents ≡ none
      → insert (new_incident id event) db
        ≡ some (record db { incidents = db.incidents ++ new_incident id event ∷ [] })
  unfolding insert insert_unless
  insert-fresh absent fresh = rw (absent, fresh) refl

  insert-taken :
      (now : Incident)
      → find_incident event db.incidents ≡ some now
      → insert (new_incident id event) db ≡ none
  unfolding insert insert_unless
  insert-taken now found = rw found refl

  created-IsResolved :
      find_incident event db.incidents ≡ none
      → get id db.incidents ≡ none
      → IsResolved event db
          (on_insert (new_incident id event) db (insert (new_incident id event) db))
  unfolding on_insert
  created-IsResolved absent fresh = rw (insert-fresh absent fresh) (record {
    incident = new_incident id event;
    answered = rw absent refl;
    stored = new_incident id event;
    found =
        find_incident-append event db.incidents (new_incident id event) absent
        ∙ rw (same_failure_refl event) refl;
    same_incident = refl;
    unique = UniqueKeys-append db.incidents (new_incident id event) unique absent;
  })

  conflict-IsResolved :
      (now : Incident)
      → find_incident event db.incidents ≡ some now
      → IsResolved event db
          (on_insert (new_incident id event) db (insert (new_incident id event) db))
  unfolding on_insert after_conflict
  conflict-IsResolved now found =
      rw (insert-taken now found, found) (record_redelivery-IsResolved now now found refl)

  -- Let the failures of a store be different, the new id be unused, and the incident that the SELECT
  -- saw, if any, be there still. Then `get_or_create` gives the one incident of the failure, without
  -- an error, and creates it exactly if it was not there when it came to the INSERT, whatever other
  -- workers wrote in between.
  pub get_or_create-IsResolved :
      (seen : Db)
      → get id db.incidents ≡ none
      → ((row : Incident)
          → find_incident event seen.incidents ≡ some row
          → (now : Incident) × (find_incident event db.incidents ≡ some now) × (now.id ≡ row.id))
      → IsResolved event db (get_or_create event id seen db)
  unfolding get_or_create on_found
  get_or_create-IsResolved seen fresh kept =
      elim (Option-cases (find_incident event seen.incidents)) [
        | inr (row, e) ↦
            let (now, found, same) = kept row e in
            rw e (record_redelivery-IsResolved row now found same)
        | inl e ↦ elim (Option-cases (find_incident event db.incidents)) [
          | inl absent ↦ rw e (created-IsResolved absent fresh)
          | inr (now, found) ↦ rw e (conflict-IsResolved now found)
        ]
      ]
