-- ===== src/Core.antt =====
-- The vocabulary of the program (src/dag_doctor/core).
pub mod Json
pub mod Models
pub mod Settings
pub mod Regex
