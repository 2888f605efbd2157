-- ===== src/Graph/Nodes.antt =====
-- The nodes of the graph (src/dag_doctor/graph/nodes).
pub mod Step
pub mod Triage
pub mod Gather
pub mod Form
pub mod Probe
pub mod Conclude
pub mod Escalate
