-- ===== src/Evaluation.antt =====
-- The evaluation of the agent against seeded failures (src/dag_doctor/evaluation).
pub mod Scorer
pub mod Polling
