-- ===== src/Tools/Envelope.antt =====
-- What every tool call returns, and the one place that produces it (src/dag_doctor/tools/base.py).
-- What a tool computes is data here: `Execution` is how `execute` ended under its timeout.
pub mod Uniform
use dag_doctor.Base.{ℕ, String, Text, codes, decimal, Bool, true, false, Option, none, some, ◌++◌}
use dag_doctor.Core.Json.{Json, null, number, str, Fields, end, field}

pub data ToolStatus : Type 0 where
  ok not_found invalid_input timeout unavailable forbidden error : ToolStatus

abbrev pub status_value : ToolStatus → String
status_value ok = "ok"
status_value not_found = "not_found"
status_value invalid_input = "invalid_input"
status_value timeout = "timeout"
status_value unavailable = "unavailable"
status_value forbidden = "forbidden"
status_value error = "error"

-- A `ToolOutput`: what pydantic dumps of it, and its `summarise()`.
pub record ToolOutput : Type 0 where
  pub dumped : Json
  pub summary : Text

pub record ToolResult : Type 0 where
  pub tool : String
  pub status : ToolStatus
  pub data_out : Option ToolOutput
  pub error_text : Option Text
  pub duration_ms : ℕ

abbrev is_ok : ToolStatus → Bool
is_ok ok = true
is_ok _ = false

-- `ToolResult.ok`
unfoldable pub succeeded : ToolResult → Bool
succeeded r = is_ok r.status

abbrev or_no_detail : Option Text → Text
or_no_detail none = codes "no detail"
or_no_detail (some t) = t

summary_of : Option ToolOutput → ToolResult → Text
summary_of (some out) r = out.summary
summary_of none r =
    codes r.tool
    ++ (codes " returned "
        ++ (codes (status_value r.status) ++ (codes ": " ++ or_no_detail r.error_text)))

-- `ToolResult.summarise`
unfoldable pub summarise : ToolResult → Text
unfolding summary_of
summarise r = summary_of r.data_out r

data_of : Option ToolOutput → Json
data_of none = null
data_of (some out) = out.dumped

error_of : Option Text → Json
error_of none = null
error_of (some t) = str t

-- `ToolResult.payload`: every result in the same five keys.
unfoldable pub payload : ToolResult → Fields
unfolding data_of error_of
payload r = field "tool" (str (codes r.tool)) (
    field "status" (str (codes (status_value r.status))) (
      field "data" (data_of r.data_out) (
        field "error" (error_of r.error_text)
          (field "duration_ms" (number (decimal r.duration_ms)) end))))

-- Whether the arguments fit the tool's input model, with what `_explain` says if they do not.
pub data Validation {ℓ} (I : Type ℓ) : Type ℓ where
  valid : I → Validation I
  invalid : Text → Validation I

-- How `execute` ended, under the timeout: a value, one of the exceptions that `run` tells apart, or a
-- `BaseException` that is no `Exception`, as a cancellation is.
pub data Execution : Type 0 where
  returned : ToolOutput → Execution
  timed_out : Execution
  read_only_violation target_not_found dag_doctor_error : (message : Text) → Execution
  unexpected : (type_name message : Text) → Execution
  cancelled : Execution

-- How `run` ends: with a result, or with the `BaseException`, which it lets out.
pub data Ran : Type 0 where
  finished : ToolResult → Ran
  let_out : Ran

pub record BaseTool (I : Type 0) : Type 0 where
  pub name : String
  pub timeout_s : Text
  pub validate : Fields → Validation I
  pub execute : I → Execution

module _ {I : Type 0} (tool : BaseTool I) (elapsed : ℕ) where
  unfoldable pub failed : ToolStatus → Text → ToolResult
  failed status message = record {
    tool = tool.name;
    status = status;
    data_out = none;
    error_text = some message;
    duration_ms = elapsed;
  }

  unfoldable pub finish : Execution → Ran
  unfolding failed
  finish (returned out) = finished (record {
    tool = tool.name;
    status = ok;
    data_out = some out;
    error_text = none;
    duration_ms = elapsed;
  })
  finish timed_out = finished (
      failed timeout
        (codes tool.name ++ (codes " timed out after " ++ (tool.timeout_s ++ codes "s"))))
  finish (read_only_violation message) = finished (failed forbidden message)
  finish (target_not_found message) = finished (failed not_found message)
  finish (dag_doctor_error message) = finished (failed unavailable message)
  finish (unexpected type_name message) =
      finished (failed error (type_name ++ (codes ": " ++ message)))
  finish cancelled = let_out

  unfoldable pub checked : Validation I → Ran
  unfolding finish failed
  checked (invalid explanation) = finished (failed invalid_input explanation)
  checked (valid input) = finish (tool.execute input)

  -- `BaseTool.run`
  unfoldable pub run : Fields → Ran
  unfolding checked
  run raw_input = checked (tool.validate raw_input)
