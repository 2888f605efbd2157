-- ===== src/Tools/Schema.antt =====
-- Reading a table's shape and diffing it against a stored one
-- (src/dag_doctor/tools/schema_inspect.py). What the database reflects is a parameter; the snapshots
-- are a list of rows, and a moment is a number.
pub mod Summary
pub mod Available
pub mod Drift
pub mod Renames
pub mod Compare
use dag_doctor.Base.{
  ℕ, ◌==◌, ltb, leb, String, Text, codes, decimal, length, same_text, has_text, sorted_set, Bool,
  true, false, not, ◌&&◌, ◌||◌, Option, none, some, List, [], ◌∷◌, ◌++◌, map, keep, any, find,
  is_some, if◌then◌else◌,
}
use dag_doctor.Core.Json.{Json, null, bool, number, str, arr, obj, Fields, end, field, get}
use dag_doctor.Tools.Sql.{TableRef, parse, qualified}

pub record ColumnSpec : Type 0 where
  pub name : Text
  pub type_name : Text
  pub nullable : Bool

-- `ColumnSpec.model_dump()`
unfoldable pub dumped : ColumnSpec → Json
dumped c = obj (
    field "name" (str c.name)
      (field "type" (str c.type_name) (field "nullable" (bool c.nullable) end)))

pub record SchemaSnapshot : Type 0 where
  pub connection : Text
  pub table_name : Text
  pub columns : List Json
  pub captured_at : ℕ

pub record RenamedColumn : Type 0 where
  pub likely_from : Text
  pub likely_to : Text
  pub type_name : Text

pub record ChangedColumn : Type 0 where
  pub name : Text
  pub was : Text
  pub now : Text

pub record SchemaDiff : Type 0 where
  pub connection : Text
  pub table : Text
  pub baseline_captured_at : Option ℕ
  pub added : List Text
  pub removed : List Text
  pub changed : List ChangedColumn
  pub likely_renames : List RenamedColumn
  pub has_drift : Bool
  pub baseline_created : Bool
  pub baseline_too_recent : Bool

-- One entry of a dict of columns: a name, and the type as `str` prints it.
pub record Entry : Type 0 where
  pub name : Text
  pub type_name : Text

-- What a dict built from the entries has under a name: the last entry of that name.
unfoldable pub or_else {ℓ} : {A : Type ℓ} → Option A → Option A → Option A
or_else none b = b
or_else (some a) b = some a

unfoldable pub type_in : List Entry → Text → Option Text
unfolding or_else
type_in [] t = none
type_in (e ∷ es) t = or_else (type_in es t) (if same_text t e.name then some e.type_name else none)

abbrev pub names : List Entry → List Text
names es = map (λ e. e.name) es

-- `d[name]["type"]`, for a name of the dict.
abbrev pub or_empty : Option Text → Text
or_empty none = []
or_empty (some t) = t

abbrev pub type_of : List Entry → Text → Text
type_of es t = or_empty (type_in es t)

module _ (py_str : Json → Text) where
  -- `str(value)`: a string is its own, and `None` stands for a missing one.
  unfoldable pub shown : Option Json → Text
  shown none = codes "None"
  shown (some (str t)) = t
  shown (some j) = py_str j

  entry_of : Option Json → Option Json → List Entry
  unfolding shown
  entry_of (some (str name)) kind = record { name = name; type_name = shown kind } ∷ []
  entry_of _ kind = []

  -- A stored column that is a dict with a string for its name.
  unfoldable pub stored_entry : Json → List Entry
  unfolding entry_of
  stored_entry (obj fields) = entry_of (get "name" fields) (get "type" fields)
  stored_entry _ = []

  -- `was`
  unfoldable pub stored_entries : List Json → List Entry
  unfolding stored_entry
  stored_entries [] = []
  stored_entries (j ∷ js) = stored_entry j ++ stored_entries js

-- `now`
abbrev pub live_entry : ColumnSpec → Entry
live_entry c = record { name = c.name; type_name = c.type_name }

abbrev pub live_entries : List ColumnSpec → List Entry
live_entries cs = map live_entry cs

-- `list.remove`
unfoldable pub without : Text → List Text → List Text
without t [] = []
without t (s ∷ ss) = let rest = without t ss in if same_text s t then ss else s ∷ rest

-- What the loop does with its match: `others` is the rest of the loop on the names still available.
unfoldable pub paired :
    Option Text → Text → Text → List Text → (List Text → List RenamedColumn) → List RenamedColumn
paired none gone old_type available others = others available
paired (some match) gone old_type available others =
    record { likely_from = gone; likely_to = match; type_name = old_type }
    ∷ others (without match available)

-- `_likely_renames`
unfoldable pub likely_renames : List Entry → List Entry → List Text → List Text → List RenamedColumn
unfolding paired without
likely_renames was now available [] = []
likely_renames was now available (gone ∷ removed) =
    let old_type = type_of was gone in
    paired (find (λ name. same_text (type_of now name) old_type) available) gone old_type available
      (λ rest. likely_renames was now rest removed)

-- The columns of both, whose types differ.
unfoldable pub changes : List Entry → List Entry → List Text → List ChangedColumn
changes was now [] = []
changes was now (t ∷ ts) =
    let rest = changes was now ts in
    if same_text (type_of was t) (type_of now t)
    then rest
    else record { name = t; was = type_of was t; now = type_of now t } ∷ rest

abbrev pub is_empty {ℓ} : {A : Type ℓ} → List A → Bool
is_empty [] = true
is_empty (x ∷ xs) = false

-- `_diff`, of the two dicts.
unfoldable pub added_names : List Entry → List Entry → List Text
added_names was now = sorted_set (keep (λ t. not (has_text t (names was))) (names now))

unfoldable pub removed_names : List Entry → List Entry → List Text
removed_names was now = sorted_set (keep (λ t. not (has_text t (names now))) (names was))

unfoldable pub shared_names : List Entry → List Entry → List Text
shared_names was now = sorted_set (keep (λ t. has_text t (names now)) (names was))

unfoldable pub diff_entries : Text → Text → ℕ → List Entry → List Entry → SchemaDiff
unfolding added_names removed_names shared_names changes likely_renames
diff_entries connection table captured_at was now =
    let added = added_names was now in
    let removed = removed_names was now in
    let changed = changes was now (shared_names was now) in
    record {
      connection = connection;
      table = table;
      baseline_captured_at = some captured_at;
      added = added;
      removed = removed;
      changed = changed;
      likely_renames = likely_renames was now added removed;
      has_drift = not (is_empty added && is_empty removed && is_empty changed);
      baseline_created = false;
      baseline_too_recent = false;
    }

abbrev undiffed : Text → Text → Bool → Bool → SchemaDiff
undiffed connection table created too_recent = record {
  connection = connection;
  table = table;
  baseline_captured_at = none;
  added = [];
  removed = [];
  changed = [];
  likely_renames = [];
  has_drift = false;
  baseline_created = created;
  baseline_too_recent = too_recent;
}

-- `_no_baseline`
unfoldable pub no_baseline : Text → Text → SchemaDiff
no_baseline connection table = undiffed connection table false true

-- What `execute` returns once it has recorded the first snapshot.
unfoldable pub first_seen : Text → Text → SchemaDiff
first_seen connection table = undiffed connection table true false
