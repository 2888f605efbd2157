-- ===== src/Tools.antt =====
-- The tools: their common machinery, and those whose logic is their own (src/dag_doctor/tools).
pub mod Envelope
pub mod Sql
pub mod Upstream
pub mod Schema
pub mod Airflow
pub mod Registry
pub mod Signature
pub mod Similar
pub mod Profile
