-- ===== src/Tools/Profile/Again.antt =====
-- About the profiles that are stored and compared (src/dag_doctor/tools/data_profile.py,
-- ProfileTable.execute).
use dag_doctor.Base.{
  ℕ, ◌<◌, Text, same_text, same_text_refl, same_text_eq, Bool, true, false, ◌&&◌, Option, none,
  some, List, [], ◌∷◌, ◌++◌, map, keep, ◌≡◌, refl, sym, ap, ◌∙◌, arith, Bool-cases, inl, inr, subst,
  if◌then◌else◌,
}
use dag_doctor.Tools.Sql.{TableRef, parse, qualified}
use dag_doctor.Tools.Profile.{
  ColumnProfile, Stored, ProfileRow, ProfileTableInput, TableProfile, Measured, Warehouse, Profiled,
  value, wanted, requested_columns, sample_size, profile_of, stored_of, previous_of, apply_baseline,
  later_row, latest_baseline, has_regressed, Outcome, columns_of, row_of, on_requested, on_columns,
  on_ref, execute,
}

-- All the profiles are of earlier moments.
abbrev pub AllBefore : ℕ → List ProfileRow → Type 0
AllBefore moment [] = Unit {0}
AllBefore moment (row ∷ rows) = (row.captured_at < moment) × AllBefore moment rows

latest_baseline-last :
    (connection table : Text) (rows : List ProfileRow) (row : ProfileRow)
    → AllBefore row.captured_at rows
    → same_text row.connection connection && same_text row.table_name table ≡ true
    → latest_baseline connection table (rows ++ row ∷ []) ≡ some row
unfolding latest_baseline later_row
latest_baseline-last connection table [] row h k = rw k refl
latest_baseline-last connection table (other ∷ rows) row h k =
    elim (Bool-cases (same_text other.connection connection && same_text other.table_name table)) [
      | inl e ↦ rw (e, latest_baseline-last connection table rows row h.1 k) (ground arith)
      | inr e ↦ rw e (latest_baseline-last connection table rows row h.1 k)
    ]

-- A fraction that is one's own, where there is one.
abbrev IsOwn : ℕ × ℕ → Option (ℕ × ℕ) → Type 0
IsOwn f none = Unit {0}
IsOwn f (some g) = g ≡ f

stored_of-apply_baseline :
    (baseline : Option ProfileRow) (c : ColumnProfile)
    → stored_of (apply_baseline baseline c) ≡ stored_of c
unfolding apply_baseline
stored_of-apply_baseline none c = refl
stored_of-apply_baseline (some row) c = refl

module _ (sampled : ℕ) (measured : Text → Measured) (baseline : Option ProfileRow) where
  abbrev fraction_of : Text → ℕ × ℕ
  fraction_of t = (profile_of sampled measured t).null_fraction

  abbrev stored_all : List Text → List Stored
  stored_all names =
      map stored_of (map (apply_baseline baseline) (map (profile_of sampled measured) names))

  first_or :
      (t n : Text) (o : Option (ℕ × ℕ)) (s : Stored)
      → s ≡ stored_of (profile_of sampled measured n)
      → IsOwn (fraction_of t) o
      → IsOwn (fraction_of t) (elim o [
        | some f ↦ some f
        | none ↦ if same_text s.name t then some s.null_fraction else none
      ])
  unfolding profile_of
  first_or t n (some f) s e h = h
  first_or t n none s e h = elim (Bool-cases (same_text s.name t)) [
    | inl q ↦
        let same : n ≡ t = sym (ap (λ (z : Stored). z.name) e) ∙ same_text_eq s.name t q in
        rw q (ap (λ (z : Stored). z.null_fraction) e ∙ ap fraction_of same)
    | inr q ↦ rw q tt
  ]

  previous_of-IsOwn :
      (t : Text) (names : List Text) → IsOwn (fraction_of t) (previous_of t (stored_all names))
  unfolding previous_of
  previous_of-IsOwn t [] = tt
  previous_of-IsOwn t (n ∷ ns) =
      first_or t n (previous_of t (stored_all ns)) _
        (stored_of-apply_baseline baseline (profile_of sampled measured n)) (previous_of-IsOwn t ns)

  module _ (jumped : ℕ × ℕ → ℕ × ℕ → Bool) (steady : (f : ℕ × ℕ) → jumped f f ≡ false) where
    own_steady :
        (f : ℕ × ℕ) (o : Option (ℕ × ℕ))
        → IsOwn f o
        → (elim o [ none ↦ false | some was ↦ jumped was f ]) ≡ false
    own_steady f none h = refl
    own_steady f (some g) h = ap (λ x. jumped x f) h ∙ steady f

    none_regressed :
        (row : ProfileRow) (known names : List Text)
        → row.columns ≡ stored_all known
        → keep
            (has_regressed jumped)
            (map (apply_baseline (some row)) (map (profile_of sampled measured) names))
          ≡ []
    unfolding apply_baseline has_regressed profile_of
    none_regressed row known [] e = refl
    none_regressed row known (n ∷ ns) e =
        let own =
          subst (λ cs. IsOwn (fraction_of n) (previous_of n cs)) (sym e)
            (previous_of-IsOwn n known) in
        rw (own_steady (fraction_of n) (previous_of n row.columns) own)
          (none_regressed row known ns e)

abbrev pub SteadyOutcome : ℕ → Profiled → Type 0
SteadyOutcome moment outcome =
    (out : TableProfile) × (outcome ≡ value out)
    × (out.baseline_captured_at ≡ some moment)
    × (out.regressed_columns ≡ [])

module _ (jumped : ℕ × ℕ → ℕ × ℕ → Bool) (w : Warehouse) (request : ProfileTableInput)
    (ref : TableRef) (present names : List Text) (parsed : parse request.table ≡ some ref)
    (there : w.columns request.connection ref ≡ some present)
    (asked : requested_columns request.columns present ≡ wanted names) where
  execute-wanted :
      (moment : ℕ) (rows : List ProfileRow)
      → execute jumped w request moment rows
        ≡ on_requested jumped w request ref moment rows (wanted names)
  unfolding execute on_ref on_columns
  execute-wanted moment rows = rw (parsed, there, asked) refl

  abbrev first_columns : List ProfileRow → List ColumnProfile
  first_columns rows =
      map (apply_baseline (latest_baseline request.connection (qualified ref) rows))
        (columns_of jumped w request ref names)

  abbrev first_row : ℕ → List ProfileRow → ProfileRow
  first_row moment rows = row_of jumped w request ref (first_columns rows) moment

  execute-rows :
      (moment : ℕ) (rows : List ProfileRow)
      → (execute jumped w request moment rows).rows ≡ rows ++ first_row moment rows ∷ []
  unfolding on_requested
  execute-rows moment rows = ap (λ (o : Outcome). o.rows) (execute-wanted moment rows)

  latest_baseline-first :
      (moment : ℕ) (rows : List ProfileRow)
      → AllBefore moment rows
      → latest_baseline request.connection (qualified ref) (rows ++ first_row moment rows ∷ [])
        ≡ some (first_row moment rows)
  latest_baseline-first moment rows h =
      latest_baseline-last request.connection (qualified ref) rows (first_row moment rows) h
        (rw (same_text_refl request.connection, same_text_refl (qualified ref)) refl)

  on_requested_steady :
      (steady : (f : ℕ × ℕ) → jumped f f ≡ false) (moment next : ℕ) (rows : List ProfileRow)
      → AllBefore moment rows
      → SteadyOutcome moment
          (on_requested jumped w request ref next
            (rows ++ first_row moment rows ∷ [])
            (wanted names)).outcome
  unfolding on_requested
  on_requested_steady steady moment next rows h =
      let none_now =
        none_regressed (w.sampled request.connection ref (sample_size request))
          (w.measured request.connection ref (sample_size request))
          (latest_baseline request.connection (qualified ref) rows) jumped steady
          (first_row moment rows) names names refl in
      rw (latest_baseline-first moment rows h)
        (_, refl, refl, ap (map (λ (c : ColumnProfile). c.name)) none_now)

-- Where a value that has not moved is no alert, the earlier profiles are of earlier moments, the table
-- is there and the columns that are asked for are columns of it: a table that is profiled again, with
-- its columns, its sample and its aggregates as they were, is compared with the profile that the first
-- call stored, and no column of it has regressed, whatever the earlier profiles were.
pub execute_steady :
    (jumped : ℕ × ℕ → ℕ × ℕ → Bool) (w : Warehouse) (request : ProfileTableInput) (ref : TableRef)
    (present names : List Text) (moment next : ℕ) (rows : List ProfileRow)
    → ((f : ℕ × ℕ) → jumped f f ≡ false)
    → parse request.table ≡ some ref
    → w.columns request.connection ref ≡ some present
    → requested_columns request.columns present ≡ wanted names
    → AllBefore moment rows
    → SteadyOutcome moment
        (execute jumped w request next (execute jumped w request moment rows).rows).outcome
execute_steady jumped w request ref present names moment next rows steady p t a h =
    let known = execute-rows jumped w request ref present names p t a moment rows in
    let again =
      execute-wanted jumped w request ref present names p t a next
        (rows ++ first_row jumped w request ref present names p t a moment rows ∷ []) in
    subst (λ rs. SteadyOutcome moment (execute jumped w request next rs).outcome) (sym known)
      (subst (λ (o : Outcome). SteadyOutcome moment o.outcome) (sym again)
        (on_requested_steady jumped w request ref present names p t a steady moment next rows h))
