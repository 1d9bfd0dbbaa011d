-- ===== src/Orchestration.antt =====
-- services/server/src/infrastructure/postgres/workflows.rs: one invocation of a Workflow as the
-- reconciler advances it. `Invocation` is the operations; `NodeMoves`, `Operations` and `Steps` say
-- what each may do; `Guarantees`, `Propagate`, `Complete` and `Remaining` prove.
pub mod Invocation
pub mod NodeMoves
pub mod Operations
pub mod Steps
pub mod Guarantees
pub mod Propagate
pub mod Complete
pub mod Remaining
