-- ===== src/Api.antt =====
-- The HTTP API (src/dag_doctor/api). Requests arrive validated, and what a route returns is data.
pub mod Paging
pub mod Incidents
