-- ===== src/Messaging/Schemas.antt =====
-- The wire formats (src/dag_doctor/messaging/schemas.py). Reading JSON into a message is pydantic's
-- `model_validate_json`, a parameter; `parked_at` comes from the clock and is left out.
use dag_doctor.Base.{
  ℕ, ◌==◌, String, Text, codes, decimal, ◌++◌, Bool, Option, none, some, List, ◌≡◌, refl,
  if◌then◌else◌,
}
use dag_doctor.Core.Models.{
  ℤ, RootCauseCategory, HaltReason, FailureEvent, Diagnosis, is_conclusive,
}
use dag_doctor.Messaging.Base64.{encode, decode, Bytes, decode-encode}

abbrev pub schema_version : ℕ
schema_version = 1

pub record TaskFailureMessage : Type 0 where
  pub version : ℕ
  pub dag_id : String
  pub task_id : String
  pub run_id : String
  pub try_number : ℕ
  pub map_index : ℤ
  pub logical_date : Option ℕ
  pub failed_at : ℕ
  pub log_url : Option String
  pub exception_type : Option Text
  pub exception_message : Option Text

unfoldable pub from_event : FailureEvent → TaskFailureMessage
from_event event = record {
  version = schema_version;
  dag_id = event.dag_id;
  task_id = event.task_id;
  run_id = event.run_id;
  try_number = event.try_number;
  map_index = event.map_index;
  logical_date = event.logical_date;
  failed_at = event.failed_at;
  log_url = event.log_url;
  exception_type = event.exception_type;
  exception_message = event.exception_message;
}

unfoldable pub to_event : TaskFailureMessage → FailureEvent
to_event message = record {
  dag_id = message.dag_id;
  task_id = message.task_id;
  run_id = message.run_id;
  try_number = message.try_number;
  map_index = message.map_index;
  logical_date = message.logical_date;
  failed_at = message.failed_at;
  log_url = message.log_url;
  exception_type = message.exception_type;
  exception_message = message.exception_message;
}

-- A message, or the text of the `InvalidFailureEventError`.
pub data Parsed : Type 0 where
  message : TaskFailureMessage → Parsed
  unparseable : Text → Parsed

check_version : Option TaskFailureMessage → Parsed
check_version none =
    unparseable (codes "Message on the failure topic does not match the failure event schema")
check_version (some m) =
    if m.version == schema_version
    then message m
    else unparseable (codes "Unsupported failure event schema version " ++ decimal m.version)

-- `TaskFailureMessage.from_bytes`, over the validation of pydantic.
unfoldable pub from_bytes : (List ℕ → Option TaskFailureMessage) → List ℕ → Parsed
unfolding check_version
from_bytes validate raw = check_version (validate raw)

pub record DeadLetterMessage : Type 0 where
  pub version : ℕ
  pub reason : String
  pub error : Text
  pub source_topic : String
  pub source_partition : ℕ
  pub source_offset : ℕ
  pub delivery_attempts : ℕ
  pub original_payload_b64 : Text

-- `DeadLetterMessage.park`
unfoldable pub dead_letter : List ℕ → String → Text → String → ℕ → ℕ → ℕ → DeadLetterMessage
dead_letter raw reason error topic partition offset attempts = record {
  version = schema_version;
  reason = reason;
  error = error;
  source_topic = topic;
  source_partition = partition;
  source_offset = offset;
  delivery_attempts = attempts;
  original_payload_b64 = encode raw;
}

unfoldable pub original_payload : DeadLetterMessage → List ℕ
original_payload letter = decode letter.original_payload_b64

pub record DiagnosisCompletedMessage : Type 0 where
  pub version : ℕ
  pub incident_id : ℕ
  pub dag_id : String
  pub task_id : String
  pub run_id : String
  pub attempt : ℕ
  pub root_cause_category : RootCauseCategory
  pub confidence : ℕ
  pub halt_reason : HaltReason
  pub conclusive : Bool
  pub responsible_dag_id : Option String
  pub responsible_task_id : Option String
  pub model_used : String

unfoldable pub from_diagnosis : Diagnosis → String → String → String → ℕ → DiagnosisCompletedMessage
from_diagnosis diagnosis dag_id task_id run_id attempt = record {
  version = schema_version;
  incident_id = diagnosis.incident_id;
  dag_id = dag_id;
  task_id = task_id;
  run_id = run_id;
  attempt = attempt;
  root_cause_category = diagnosis.root_cause_category;
  confidence = diagnosis.confidence;
  halt_reason = diagnosis.halt_reason;
  conclusive = is_conclusive diagnosis;
  responsible_dag_id = diagnosis.responsible_dag_id;
  responsible_task_id = diagnosis.responsible_task_id;
  model_used = diagnosis.model_used;
}

-- Translating an event to the wire and back gives the event.
pub to_event-from_event : (event : FailureEvent) → to_event (from_event event) ≡ event
unfolding to_event from_event
to_event-from_event event = refl

-- The payload of a dead letter is the exact bytes that were parked.
pub original_payload-dead_letter :
    (raw : List ℕ) (reason : String) (error : Text) (topic : String) (partition offset attempts : ℕ)
    → Bytes raw
    → original_payload (dead_letter raw reason error topic partition offset attempts) ≡ raw
unfolding original_payload dead_letter
original_payload-dead_letter raw reason error topic partition offset attempts h =
    decode-encode raw h
