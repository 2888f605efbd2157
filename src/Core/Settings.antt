-- ===== src/Core/Settings.antt =====
-- The budgets and the broker settings (src/dag_doctor/core/settings.py), with the ranges that
-- pydantic enforces. Thresholds are in ten-thousandths.
use dag_doctor.Base.{ℕ, ◌≤◌, ltb, leb, String, ◌&&◌, Option, none, some, if◌then◌else◌, ◌≡◌, arith}

pub record BudgetSettings : Type 0 where
  pub max_iterations : ℕ
  pub max_tool_calls : ℕ
  pub triage_shortcut_confidence : ℕ
  pub min_conclude_confidence : ℕ

-- The `Field` ranges and the model validator `_shortcut_must_be_stricter_than_conclusion`:
-- `none` is the `ValidationError`.
unfoldable pub validate_budgets : BudgetSettings → Option BudgetSettings
validate_budgets b =
    if leb 1 b.max_iterations
      && leb b.max_iterations 50
      && (leb 1 b.max_tool_calls && leb b.max_tool_calls 200)
      && (leb b.triage_shortcut_confidence 10000 && leb b.min_conclude_confidence 10000)
    then if ltb b.triage_shortcut_confidence b.min_conclude_confidence then none else some b
    else none

-- What every accepted `BudgetSettings` satisfies.
pub record IsValid (b : BudgetSettings) : Type 0 where
  pub some_iteration : 1 ≤ b.max_iterations
  pub few_iterations : b.max_iterations ≤ 50
  pub some_tool_call : 1 ≤ b.max_tool_calls
  pub few_tool_calls : b.max_tool_calls ≤ 200
  pub shortcut_range : b.triage_shortcut_confidence ≤ 10000
  pub stricter : b.min_conclude_confidence ≤ b.triage_shortcut_confidence

-- Budgets that are accepted have between 1 and 50 iterations, between 1 and 200 tool calls, and a
-- shortcut threshold of at most one that is no lower than the threshold for concluding.
pub validate_budgets-IsValid : (b c : BudgetSettings) → validate_budgets b ≡ some c → IsValid c
unfolding validate_budgets
validate_budgets-IsValid b c h = ground arith

abbrev pub default_budgets : BudgetSettings
default_budgets = record {
  max_iterations = 5;
  max_tool_calls = 20;
  triage_shortcut_confidence = 9000;
  min_conclude_confidence = 5000;
}

pub record KafkaSettings : Type 0 where
  pub topic_failures : String
  pub topic_diagnoses : String
  pub topic_dlq : String
  pub max_delivery_attempts : ℕ
