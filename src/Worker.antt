-- ===== src/Worker.antt =====
-- The store and the worker (src/dag_doctor/db, src/dag_doctor/worker).
pub mod Store
pub mod Keys
pub mod Incidents
pub mod Sequences
pub mod History
pub mod Investigator
