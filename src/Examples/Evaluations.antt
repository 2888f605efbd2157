-- ===== src/Examples/Evaluations.antt =====
-- A scenario whose diagnosis the API gives at the second poll, beside one of an earlier run.
use dag_doctor.Base.{
  ◌≡◌, refl, arith, max, ltb, codes, true, none, some, List, [], ◌∷◌, length, keep, if◌then◌else◌,
}
use dag_doctor.Core.Models.{schema_drift, query_defect}
use dag_doctor.Evaluation.Scorer.{
  Scenario, Observed, nothing_observed, ScenarioResult, category_accuracy,
}
use dag_doctor.Evaluation.Scorer.Verdicts.{is_right, category_accuracy-verdicts}
use dag_doctor.Evaluation.Polling.{answer, Agent, await_diagnosis}
use dag_doctor.Evaluation.Polling.Deadline.{Awaited, await_diagnosis-Awaited}

abbrev orders : Scenario
orders = record {
  dag_id = "schema_drift_orders";
  failing_task = "build_orders_by_customer";
  expected_category = some schema_drift;
  expected_responsible_task = some "land_raw_orders";
  expects_failure = true;
}

abbrev named : Observed
named = record {
  incident_id = some (codes "i2");
  category = some schema_drift;
  responsible_task = some "land_raw_orders";
  confidence = 8000;
  conclusive = true;
}

abbrev results : List ScenarioResult
results =
    record { scenario = orders; observed = named }
    ∷ record { scenario = orders; observed = record named { category = some query_defect } }
    ∷ record { scenario = orders; observed = nothing_observed }
    ∷ []

category_accuracy-verdicts_example :
    category_accuracy results ≡ (length (keep is_right results), max 1 (length results))
category_accuracy-verdicts_example =
    category_accuracy-verdicts results ((λ h. refl), ((λ h. refl), ((λ h. absurd cc), tt)))

abbrev agent : Agent
agent = record {
  listing = λ now. answer (
      record { id = codes "i1"; received_at = 3 }
      ∷ record { id = codes "i2"; received_at = 12 }
      ∷ []);
  detail = λ now id. answer (if ltb now 20 then none else some named);
}

await_diagnosis-Awaited_example :
    (o : Observed) × (await_diagnosis agent 10 (λ t. 1) 5 30 31 10 ≡ some o)
    × Awaited agent 10 (λ t. 1) 10 40 o
await_diagnosis-Awaited_example = await_diagnosis-Awaited agent 10 (λ t. 1) 5 30 10 (omega arith)
