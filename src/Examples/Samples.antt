-- ===== src/Examples/Samples.antt =====
-- An investigation of the seeded schema drift: the failure, two tools, and a model that answers.
use dag_doctor.Base.{codes, true, none, some, [], ◌∷◌}
use dag_doctor.Core.Json.{null, str, end, field}
use dag_doctor.Core.Models.{negsuc, schema_drift, HypothesisOutcome, FailureEvent}
use dag_doctor.Core.Settings.{BudgetSettings}
use dag_doctor.Tools.Envelope.{ok, unavailable}
use dag_doctor.Graph.Toolbox.{Tool, Toolbox}
use dag_doctor.Graph.Caller.{ModelCaller, answer, provider_error}

abbrev pub orders_failure : FailureEvent
orders_failure = record {
  dag_id = "schema_drift_orders";
  task_id = "build_orders_by_customer";
  run_id = "manual__1";
  try_number = 1;
  map_index = negsuc 0;
  logical_date = none;
  failed_at = 100;
  log_url = none;
  exception_type = some (codes "UndefinedColumn");
  exception_message = some (codes "column \"customer_id\" does not exist");
}

abbrev pub schema_tool : Tool
schema_tool = record {
  name = "compare_schema_snapshot";
  declared = "connection" ∷ "table" ∷ [];
  run = λ id arguments. record {
    tool = "compare_schema_snapshot";
    status = ok;
    data_out = some (record { dumped = null; summary = codes "raw.orders drifted" });
    error_text = none;
    duration_ms = 12;
  };
}

abbrev pub logs_tool : Tool
logs_tool = record {
  name = "fetch_task_logs";
  declared = "dag_id" ∷ "task_id" ∷ [];
  run = λ id arguments. record {
    tool = "fetch_task_logs";
    status = unavailable;
    data_out = none;
    error_text = some (codes "no route to host");
    duration_ms = 3;
  };
}

abbrev pub box : Toolbox
box = record { tools = schema_tool ∷ logs_tool ∷ [] }

abbrev pub budgets : BudgetSettings
budgets = record {
  max_iterations = 3;
  max_tool_calls = 20;
  triage_shortcut_confidence = 9000;
  min_conclude_confidence = 5000;
}

-- The model confirms its hypothesis at the first test.
abbrev pub confirming : ModelCaller
confirming = record {
  triage = λ s.
      answer
        (record {
          category = schema_drift;
          rationale = codes "a column is gone";
          needs_investigation = true;
        })
        "llama3.2:3b" 10 5;
  plan = λ s.
      answer
        (record { tool = "compare_schema_snapshot"; why = [] }
          ∷ record { tool = "fetch_task_logs"; why = [] }
          ∷ record { tool = "compare_schema_snapshot"; why = [] }
          ∷ [])
        "llama3.2:3b" 10 5;
  arguments =
      λ s index name. answer (field "table" (str (codes "raw.orders")) end) "llama3.2:3b" 10 5;
  hypotheses = λ s.
      answer
        (record {
          statement = codes "customer_id was renamed";
          category = schema_drift;
          proposed_test = codes "compare the snapshot";
          test_tool = "compare_schema_snapshot";
          supporting_evidence = [];
          responsible_dag_id = none;
          responsible_task_id = some "land_raw_orders";
        }
          ∷ [])
        "llama3.2:3b" 10 5;
  verdict = λ s fresh.
      answer (record { outcome = HypothesisOutcome.confirmed; notes = codes "renamed" })
        "llama3.2:3b" 10 5;
  conclude = λ s.
      answer
        (record {
          root_cause_category = schema_drift;
          summary = codes "the column was renamed";
          proposed_fix = none;
          responsible_dag_id = none;
          responsible_task_id = some "build_orders_by_customer";
          unknowns = [];
        })
        "llama3.2:3b" 10 5;
  uuid = λ s index. 0;
}

-- The same model, whose tests decide nothing.
abbrev pub undecided : ModelCaller
undecided = record confirming {
  verdict = λ s fresh.
      answer (record { outcome = HypothesisOutcome.inconclusive; notes = [] }) "llama3.2:3b" 10 5;
}

-- The same model, which the provider cannot reach when the diagnosis is to be written.
abbrev pub unreachable : ModelCaller
unreachable = record confirming { conclude = λ s. provider_error }
