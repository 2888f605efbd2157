-- ===== src/Examples/Calls.antt =====
-- A call of a tool that takes any arguments and does not find its target.
use dag_doctor.Base.{Text, [], codes, ◌≡◌, refl}
use dag_doctor.Core.Json.{Fields, end}
use dag_doctor.Tools.Envelope.{
  valid, target_not_found, Ran, finished, let_out, BaseTool, failed, finish, checked, run,
  summarise,
}
use dag_doctor.Tools.Envelope.Uniform.{IsUniform, run-IsUniform}

abbrev lookup : BaseTool Fields
lookup = record {
  name = "lookup";
  timeout_s = codes "30.0";
  validate = λ raw. valid raw;
  execute = λ input. target_not_found (codes "no such table");
}

abbrev summary_of_run : Ran → Text
summary_of_run (finished r) = summarise r
summary_of_run let_out = []

lookup_summary :
    summary_of_run (run lookup 12 end) ≡ codes "lookup returned not_found: no such table"
unfolding run checked finish failed summarise
lookup_summary = refl

run-IsUniform_example : IsUniform lookup end 12 (run lookup 12 end)
run-IsUniform_example = run-IsUniform lookup 12 end
