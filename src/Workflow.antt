-- ===== src/Workflow.antt =====
-- services/server/src/domain/workflow.rs: graphs of Jobs. `Graph` is the definition and its
-- validation, `Join` the decision at a node; the others prove.
pub mod Graph
pub mod Join
pub mod Counting
pub mod Build
pub mod Edges
pub mod Relax
pub mod Kahn
pub mod Order
pub mod Verdict
