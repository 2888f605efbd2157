-- ===== src/Tools/Envelope/Uniform.antt =====
-- About the result of a tool call (src/dag_doctor/tools/base.py, BaseTool.run).
use dag_doctor.Base.{ℕ, Text, none, some, ◌≡◌, refl, codes, ◌++◌}
use dag_doctor.Core.Json.{Fields}
use dag_doctor.Tools.Envelope.{
  ToolStatus, ok, not_found, invalid_input, timeout, unavailable, forbidden, error, ToolOutput,
  ToolResult, Validation, valid, invalid, Execution, returned, timed_out, read_only_violation,
  target_not_found, dag_doctor_error, unexpected, cancelled, Ran, finished, let_out, BaseTool,
  failed, finish, checked, run,
}

module _ {I : Type 0} (tool : BaseTool I) (raw : Fields) where
  -- The arguments were valid, and `execute` ended in this way.
  abbrev pub Executed : Execution → Type 0
  Executed x = (input : I) × (tool.validate raw ≡ valid input) × (tool.execute input ≡ x)

  -- No data, and this error.
  abbrev pub Says : ToolResult → Text → Type 0
  Says r message = (r.data_out ≡ none) × (r.error_text ≡ some message)

  -- What must have happened for a result to have its status, and what the result then holds.
  abbrev pub Reports : ToolStatus → ToolResult → Type 0
  Reports ok r =
      (out : ToolOutput) × Executed (returned out) × (r.data_out ≡ some out) × (r.error_text ≡ none)
  Reports invalid_input r =
      (explanation : Text) × (tool.validate raw ≡ invalid explanation) × Says r explanation
  Reports timeout r =
      Executed timed_out
      × Says r (codes tool.name ++ (codes " timed out after " ++ (tool.timeout_s ++ codes "s")))
  Reports forbidden r = (message : Text) × Executed (read_only_violation message) × Says r message
  Reports not_found r = (message : Text) × Executed (target_not_found message) × Says r message
  Reports unavailable r = (message : Text) × Executed (dag_doctor_error message) × Says r message
  Reports error r =
      (type_name : Text) × (message : Text) × Executed (unexpected type_name message)
      × Says r (type_name ++ (codes ": " ++ message))

  -- A result of the tool after `elapsed` that reports what happened, or a cancellation that is let
  -- out.
  abbrev pub IsUniform : ℕ → Ran → Type 0
  IsUniform elapsed (finished r) =
      (r.tool ≡ tool.name) × (r.duration_ms ≡ elapsed) × Reports r.status r
  IsUniform elapsed let_out = Executed cancelled

  finish-IsUniform :
      (elapsed : ℕ) (input : I) (x : Execution)
      → tool.validate raw ≡ valid input
      → tool.execute input ≡ x
      → IsUniform elapsed (finish tool elapsed x)
  unfolding finish failed
  finish-IsUniform elapsed input (returned out) v e = (refl, refl, (out, (input, v, e), refl, refl))
  finish-IsUniform elapsed input timed_out v e = (refl, refl, ((input, v, e), (refl, refl)))
  finish-IsUniform elapsed input (read_only_violation message) v e =
      (refl, refl, (message, (input, v, e), (refl, refl)))
  finish-IsUniform elapsed input (target_not_found message) v e =
      (refl, refl, (message, (input, v, e), (refl, refl)))
  finish-IsUniform elapsed input (dag_doctor_error message) v e =
      (refl, refl, (message, (input, v, e), (refl, refl)))
  finish-IsUniform elapsed input (unexpected type_name message) v e =
      (refl, refl, (type_name, message, (input, v, e), (refl, refl)))
  finish-IsUniform elapsed input cancelled v e = (input, v, e)

  checked-IsUniform :
      (elapsed : ℕ) (v : Validation I)
      → tool.validate raw ≡ v
      → IsUniform elapsed (checked tool elapsed v)
  unfolding checked failed
  checked-IsUniform elapsed (invalid explanation) e = (refl, refl, (explanation, e, (refl, refl)))
  checked-IsUniform elapsed (valid input) e =
      finish-IsUniform elapsed input (tool.execute input) e refl

-- A tool call lets an exception out only where its arguments were valid and execution was cancelled.
-- Else it has a result under the tool's name whose status tells what happened: `ok` that execution
-- returned the result's data, and, each without data and with the error named, `invalid_input` that
-- validation refused the arguments, `timeout` that time ran out, `forbidden` a read-only violation,
-- `not_found` a target that is not there, `unavailable` any other error of the package, and `error`
-- any other exception, by its type and message.
pub run-IsUniform :
    {I : Type 0} (tool : BaseTool I) (elapsed : ℕ) (raw : Fields)
    → IsUniform tool raw elapsed (run tool elapsed raw)
unfolding run
run-IsUniform tool elapsed raw = checked-IsUniform tool raw elapsed (tool.validate raw) refl
