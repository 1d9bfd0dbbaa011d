-- ===== src/Dispatch.antt =====
-- The durable execution state of services/server/src/infrastructure/postgres.rs: Runs, Attempts and
-- outbox rows, and every operation that moves them. `Tables` has the rows, `Outbox` publication,
-- `Attempt` the worker's requests, `Create` and `Reconcile` the rest.
pub mod Status
pub mod Tables
pub mod Create
pub mod Outbox
pub mod Tail
pub mod Attempt
pub mod Reconcile
pub mod Soundness
pub mod Moves
pub mod Guarantees
pub mod Delivery
