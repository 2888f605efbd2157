-- ===== src/Examples/Callbacks.antt =====
-- A failed task's context, and a broker whose client does not stop cleanly.
use dag_doctor.Base.{
  ◌≡◌, String, codes, true, false, none, some, List, [], ◌∷◌, str_eq, if◌then◌else◌,
}
use dag_doctor.Core.Models.{pos}
use dag_doctor.Messaging.Publisher.{
  Broker, Operation, starting, stopping, publishing, operate_all, fresh,
}
use dag_doctor.Messaging.Publisher.Orderly.{open_after_all, operate_all_orderly}
use dag_doctor.Messaging.Callback.{
  Value, text, integer, nothing, Context, build_failure_event, on_task_failure,
}
use dag_doctor.Messaging.Callback.Quiet.{
  BuiltFrom, build_failure_event-BuiltFrom, IsQuiet, on_task_failure-IsQuiet,
}
use dag_doctor.Examples.Samples.{orders_failure}

abbrev attribute : String → Value
attribute name =
    if str_eq name "dag_id"
    then text " sales "
    else if str_eq name "task_id"
    then text "load"
    else if str_eq name "try_number"
    then integer (pos 0)
    else nothing

abbrev context : Context
context = record {
  task_instance = none;
  ti = some (record { attribute = attribute });
  run_id = text "r1";
  logical_date = nothing;
  execution_date = nothing;
  exception = some (codes "KeyError", codes "cost");
}

abbrev broker : Broker
broker = record { builds = true; reachable = true; acknowledges = λ message. true; closes = false }

build_failure_event-BuiltFrom_example : BuiltFrom context 5 (build_failure_event context 5)
build_failure_event-BuiltFrom_example = build_failure_event-BuiltFrom context 5

on_task_failure-IsQuiet_example :
    IsQuiet broker false true
      (build_failure_event context 5)
      (on_task_failure broker false true context 5)
on_task_failure-IsQuiet_example = on_task_failure-IsQuiet broker false true context 5

abbrev uses : List (Operation × Broker)
uses =
    (starting, broker)
    ∷ (publishing orders_failure, broker)
    ∷ (stopping, broker)
    ∷ (starting, broker)
    ∷ []

operate_all_orderly_example :
    open_after_all (operate_all uses fresh).calls false
    ≡ some (operate_all uses fresh).publisher.started
operate_all_orderly_example = operate_all_orderly uses
