-- ===== src/Messaging/Callback.antt =====
-- The callback that Airflow runs on a failed task
-- (src/dag_doctor/messaging/airflow_callback.py). The context is duck-typed there: here a value is
-- one of the kinds that the code tells apart.
pub mod Quiet
use Prim.Native.Char.{code}
use Prim.Native.String.{String}
use dag_doctor.Base.{
  ℕ, zero, suc, ◌==◌, leb, max, Text, codes, Bool, true, false, not, ◌&&◌, ◌||◌, Option, none, some,
  List, [], ◌∷◌, ◌++◌, take, length, if◌then◌else◌,
}
use dag_doctor.Core.Models.{ℤ, pos, negsuc, FailureEvent}
use dag_doctor.Core.Regex.{is_space}
use dag_doctor.Messaging.Publisher.{
  Broker, Call, Fault, no_broker, before_start, no_acknowledgement, running_loop, build_error,
  client_error, settings_error, Done, publish_failure_event_blocking,
}

pub data Value : Type 0 where
  text : String → Value
  integer : ℤ → Value
  boolean : Bool → Value
  moment : ℕ → Value
  nothing other : Value

-- A task instance, by its attributes; `nothing` is `None` or no such attribute.
pub record Instance : Type 0 where
  pub attribute : String → Value

-- What the callback reads of the context: the exception as its type's name and its text.
pub record Context : Type 0 where
  pub task_instance : Option Instance
  pub ti : Option Instance
  pub run_id : Value
  pub logical_date : Value
  pub execution_date : Value
  pub exception : Option (Text × Text)

abbrev pub is_blank : String → Bool
is_blank String.[] = true
is_blank (String.◌∷◌ c s) = false

-- `str.lstrip`, `str.rstrip` and `str.strip`
unfoldable pub lstrip : String → String
lstrip String.[] = String.[]
lstrip (String.◌∷◌ c s) = let rest = lstrip s in if is_space (code c) then rest else String.◌∷◌ c s

unfoldable pub rstrip : String → String
rstrip String.[] = String.[]
rstrip (String.◌∷◌ c s) =
    let rest = rstrip s in
    if is_space (code c) && is_blank rest then String.[] else String.◌∷◌ c rest

-- `_str`
unfoldable pub str_of : Value → String
unfolding lstrip rstrip
str_of (text s) = rstrip (lstrip s)
str_of _ = ""

-- `_attr_str`
unfoldable pub attr_str : Instance → String → String
unfolding str_of
attr_str ti name = str_of (ti.attribute name)

-- `_attr_int`
unfoldable pub int_or : ℤ → Value → ℤ
int_or default (integer n) = n
int_or default _ = default

-- `max(1, n)`
unfoldable pub at_least_one : ℤ → ℕ
at_least_one (pos n) = max 1 n
at_least_one (negsuc n) = 1

-- `_datetime`
unfoldable pub datetime_of : Value → Option ℕ
datetime_of (moment t) = some t
datetime_of _ = none

unfoldable pub first_of {ℓ} : {A : Type ℓ} → Option A → Option A → Option A
first_of (some a) b = some a
first_of none b = b

abbrev pub max_exception_message_chars : ℕ
max_exception_message_chars = 2000

-- `_truncate`
unfoldable pub truncate : Text → Text
truncate message =
    if leb (length message) max_exception_message_chars
    then message
    else take max_exception_message_chars message ++ codes "... [truncated]"

unfoldable pub or_text : String → String → String
or_text a b = if is_blank a then b else a

unfoldable pub non_blank : String → Option String
non_blank s = if is_blank s then none else some s

abbrev pub message_of : Option (Text × Text) → Option Text
message_of none = none
message_of (some (type_name, message)) = some message

abbrev pub type_of : Option (Text × Text) → Option Text
type_of none = none
type_of (some (type_name, message)) = some type_name

unfoldable pub truncated : Option Text → Option Text
unfolding truncate
truncated none = none
truncated (some message) = some (truncate message)

-- Why there is no event: two `InvalidFailureEventError`s.
pub data Built : Type 0 where
  event_of : FailureEvent → Built
  no_instance not_identified : Built

unfoldable pub event_read : Context → ℕ → Instance → String → String → String → FailureEvent
unfolding attr_str int_or at_least_one datetime_of first_of truncated non_blank
event_read context now ti dag_id task_id run_id = record {
  dag_id = dag_id;
  task_id = task_id;
  run_id = run_id;
  try_number = at_least_one (int_or (pos 1) (ti.attribute "try_number"));
  map_index = int_or (negsuc 0) (ti.attribute "map_index");
  logical_date = first_of (datetime_of context.logical_date) (datetime_of context.execution_date);
  failed_at = now;
  log_url = non_blank (attr_str ti "log_url");
  exception_type = type_of context.exception;
  exception_message = truncated (message_of context.exception);
}

unfoldable pub event_from : Context → ℕ → Instance → String → String → String → Built
unfolding event_read
event_from context now ti dag_id task_id run_id =
    if is_blank dag_id || is_blank task_id || is_blank run_id
    then not_identified
    else event_of (event_read context now ti dag_id task_id run_id)

unfoldable pub from_instance : Context → ℕ → Option Instance → Built
unfolding event_from or_text attr_str
from_instance context now none = no_instance
from_instance context now (some ti) =
    event_from context now ti (attr_str ti "dag_id") (attr_str ti "task_id")
      (or_text (attr_str ti "run_id") (str_of context.run_id))

-- `build_failure_event`, at a moment.
unfoldable pub build_failure_event : Context → ℕ → Built
unfolding from_instance first_of
build_failure_event context now =
    from_instance context now (first_of context.task_instance context.ti)

-- What gets out of the callback: only what is no `DagDoctorError`.
unfoldable pub escapes : Option Fault → Option Fault
escapes (some build_error) = some build_error
escapes (some client_error) = some client_error
escapes (some settings_error) = some settings_error
escapes _ = none

-- The calls that the callback makes, and what it raises.
pub record Outcome : Type 0 where
  pub calls : List Call
  pub raised : Option Fault

-- The settings are read before anything is published.
unfoldable pub on_event : Broker → Bool → Bool → FailureEvent → Outcome
unfolding escapes
on_event broker in_loop false event = record { calls = []; raised = escapes (some settings_error) }
on_event broker in_loop true event =
    let done = publish_failure_event_blocking broker in_loop event in
    record { calls = done.calls; raised = escapes done.fault }

unfoldable pub on_built : Broker → Bool → Bool → Built → Outcome
unfolding on_event
on_built broker in_loop configured (event_of event) = on_event broker in_loop configured event
on_built broker in_loop configured no_instance = record { calls = []; raised = none }
on_built broker in_loop configured not_identified = record { calls = []; raised = none }

-- `on_task_failure`: whether there are settings, given or valid in the environment, is
-- `configured`; where there are none, `KafkaSettings()` raises.
unfoldable pub on_task_failure : Broker → Bool → Bool → Context → ℕ → Outcome
unfolding on_built build_failure_event
on_task_failure broker in_loop configured context now =
    on_built broker in_loop configured (build_failure_event context now)
