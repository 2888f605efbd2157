-- ===== src/Tools/Profile.antt =====
-- Profiling a table against its last profile (src/dag_doctor/tools/data_profile.py). What the queries
-- return is a parameter, and so is the test on floats whether a null fraction, a numerator and a
-- denominator here, has moved by more than the alert. A stored column keeps what the code reads of it.
pub mod Again
use dag_doctor.Base.{
  ℕ, ◌==◌, ltb, min, max, Text, same_text, has_text, sorted_set, Bool, true, false, not, ◌&&◌,
  Option, none, some, is_some, List, [], ◌∷◌, ◌++◌, map, keep, take, if◌then◌else◌,
}
use dag_doctor.Tools.Sql.{TableRef, parse, qualified, validate_identifier}

pub record ColumnProfile : Type 0 where
  pub name : Text
  pub null_fraction : ℕ × ℕ
  pub distinct_count : ℕ
  pub min_value : Option Text
  pub max_value : Option Text
  pub baseline_null_fraction : Option (ℕ × ℕ)

-- A column of a stored profile.
pub record Stored : Type 0 where
  pub name : Text
  pub null_fraction : ℕ × ℕ

pub record ProfileRow : Type 0 where
  pub connection : Text
  pub table_name : Text
  pub row_count : ℕ
  pub sampled_rows : ℕ
  pub columns : List Stored
  pub captured_at : ℕ

pub record ProfileTableInput : Type 0 where
  pub connection : Text
  pub table : Text
  pub columns : Option (List Text)
  pub sample_rows : ℕ

pub record TableProfile : Type 0 where
  pub connection : Text
  pub table : Text
  pub row_count : ℕ
  pub sampled_rows : ℕ
  pub columns : List ColumnProfile
  pub baseline_captured_at : Option ℕ
  pub baseline_created : Bool
  pub regressed_columns : List Text

-- What the aggregates give of a column: its nulls, distinct values, least and greatest value.
pub record Measured : Type 0 where
  pub nulls : ℕ
  pub distinct_count : ℕ
  pub least : Option Text
  pub greatest : Option Text

-- The database: the columns of a table, if it exists, its number of rows, the size of a sample, and
-- the aggregates over it.
pub record Warehouse : Type 0 where
  pub columns : Text → TableRef → Option (List Text)
  pub rows : Text → TableRef → ℕ
  pub sampled : Text → TableRef → ℕ → ℕ
  pub measured : Text → TableRef → ℕ → Text → Measured

-- What a call comes to.
pub data Profiled : Type 0 where
  value : TableProfile → Profiled
  read_only_violation target_not_found : Profiled

pub data Requested : Type 0 where
  wanted : List Text → Requested
  not_identifiers not_present : Requested

unfoldable pub with_first : Option Text → Option (List Text) → Option (List Text)
with_first (some t) (some ts) = some (t ∷ ts)
with_first _ _ = none

unfoldable pub validated : List Text → Option (List Text)
unfolding with_first
validated [] = some []
validated (t ∷ ts) = with_first (validate_identifier t) (validated ts)

unfoldable pub all_present : List Text → List Text → List Text → Requested
all_present present names [] = wanted names
all_present present names (m ∷ missing) = not_present

unfoldable pub on_validated : List Text → Option (List Text) → Requested
unfolding all_present
on_validated present none = not_identifiers
on_validated present (some names) =
    all_present present names (keep (λ t. not (has_text t present)) names)

-- `_requested_columns`
unfoldable pub requested_columns : Option (List Text) → List Text → Requested
unfolding on_validated
requested_columns none present = wanted (sorted_set present)
requested_columns (some names) present = on_validated present (validated names)

abbrev pub max_sample_rows : ℕ
max_sample_rows = 50000

abbrev pub sample_size : ProfileTableInput → ℕ
sample_size request = min (max request.sample_rows 1) max_sample_rows

-- `_render`
unfoldable pub rendered : Option Text → Option Text
rendered none = none
rendered (some t) = some (take 120 t)

-- A column of `_profile_columns`.
unfoldable pub profile_of : ℕ → (Text → Measured) → Text → ColumnProfile
unfolding rendered
profile_of sampled measured name =
    let m = measured name in
    record {
      name = name;
      null_fraction = if sampled == 0 then (0, 1) else (m.nulls, sampled);
      distinct_count = m.distinct_count;
      min_value = rendered m.least;
      max_value = rendered m.greatest;
      baseline_null_fraction = none;
    }

abbrev pub stored_of : ColumnProfile → Stored
stored_of c = record { name = c.name; null_fraction = c.null_fraction }

-- What a dict of stored columns has under a name: the last of that name.
unfoldable pub previous_of : Text → List Stored → Option (ℕ × ℕ)
previous_of t [] = none
previous_of t (s ∷ ss) = elim (previous_of t ss) [
  | some f ↦ some f
  | none ↦ if same_text s.name t then some s.null_fraction else none
]

-- `_apply_baseline`, of one column.
unfoldable pub apply_baseline : Option ProfileRow → ColumnProfile → ColumnProfile
unfolding previous_of
apply_baseline none c = c
apply_baseline (some row) c = record c { baseline_null_fraction = previous_of c.name row.columns }

unfoldable pub later_row : ProfileRow → Option ProfileRow → Option ProfileRow
later_row row none = some row
later_row row (some other) = if ltb row.captured_at other.captured_at then some other else some row

-- `_latest_baseline`
unfoldable pub latest_baseline : Text → Text → List ProfileRow → Option ProfileRow
unfolding later_row
latest_baseline connection table [] = none
latest_baseline connection table (row ∷ rows) =
    let rest = latest_baseline connection table rows in
    if same_text row.connection connection && same_text row.table_name table
    then later_row row rest
    else rest

abbrev pub captured_of : Option ProfileRow → Option ℕ
captured_of none = none
captured_of (some row) = some row.captured_at

-- Whether a column has regressed: it has a baseline and has moved by more than the alert.
unfoldable pub has_regressed : (ℕ × ℕ → ℕ × ℕ → Bool) → ColumnProfile → Bool
has_regressed jumped c = elim c.baseline_null_fraction [
  | none ↦ false
  | some was ↦ jumped was c.null_fraction
]

-- The stored profiles, and what the call comes to.
pub record Outcome : Type 0 where
  pub rows : List ProfileRow
  pub outcome : Profiled

module _ (jumped : ℕ × ℕ → ℕ × ℕ → Bool) (w : Warehouse) (request : ProfileTableInput) where
  abbrev pub columns_of : TableRef → List Text → List ColumnProfile
  columns_of ref names =
      map
        (profile_of (w.sampled request.connection ref (sample_size request))
          (w.measured request.connection ref (sample_size request)))
        names

  abbrev pub row_of : TableRef → List ColumnProfile → ℕ → ProfileRow
  row_of ref columns moment = record {
    connection = request.connection;
    table_name = qualified ref;
    row_count = w.rows request.connection ref;
    sampled_rows = sample_size request;
    columns = map stored_of columns;
    captured_at = moment;
  }

  unfoldable pub on_requested : TableRef → ℕ → List ProfileRow → Requested → Outcome
  on_requested ref moment rows not_identifiers = record {
    rows = rows;
    outcome = read_only_violation;
  }
  on_requested ref moment rows not_present = record { rows = rows; outcome = target_not_found }
  on_requested ref moment rows (wanted names) =
      let baseline = latest_baseline request.connection (qualified ref) rows in
      let columns = map (apply_baseline baseline) (columns_of ref names) in
      record {
        rows = rows ++ row_of ref columns moment ∷ [];
        outcome = value (record {
          connection = request.connection;
          table = qualified ref;
          row_count = w.rows request.connection ref;
          sampled_rows = min (sample_size request) (w.rows request.connection ref);
          columns = columns;
          baseline_captured_at = captured_of baseline;
          baseline_created = not (is_some baseline);
          regressed_columns =
              map (λ (c : ColumnProfile). c.name) (keep (has_regressed jumped) columns);
        });
      }

  unfoldable pub on_columns : TableRef → ℕ → List ProfileRow → Option (List Text) → Outcome
  unfolding on_requested
  on_columns ref moment rows none = record { rows = rows; outcome = target_not_found }
  on_columns ref moment rows (some present) =
      on_requested ref moment rows (requested_columns request.columns present)

  unfoldable pub on_ref : ℕ → List ProfileRow → Option TableRef → Outcome
  unfolding on_columns
  on_ref moment rows none = record { rows = rows; outcome = read_only_violation }
  on_ref moment rows (some ref) = on_columns ref moment rows (w.columns request.connection ref)

  -- `ProfileTable.execute`, at a moment.
  unfoldable pub execute : ℕ → List ProfileRow → Outcome
  unfolding on_ref
  execute moment rows = on_ref moment rows (parse request.table)
