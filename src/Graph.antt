-- ===== src/Graph.antt =====
-- The investigation graph (src/dag_doctor/graph).
pub mod State
pub mod Confidence
pub mod Routing
pub mod Toolbox
pub mod Caller
pub mod Nodes
pub mod Builder
pub mod Effects
pub mod Rule
pub mod Termination
pub mod Limits
pub mod Outcome
pub mod Trace
pub mod Freshness
pub mod Attribution
