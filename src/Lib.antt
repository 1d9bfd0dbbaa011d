-- ===== src/Lib.antt =====
-- A model of crono, a distributed job scheduler, and what is proved of it.
--
-- The program. A control plane (services/server) keeps Jobs, Targets, Schedules and Runs in
-- PostgreSQL. Its scheduler (scheduler/planner.rs) turns a due Schedule into planned occurrences,
-- its store (infrastructure/postgres.rs) materializes them as Runs with an Attempt and an outbox
-- row, its dispatcher publishes outbox rows, and workers (services/worker) claim Attempts, renew
-- their leases and report results. A repair pass (`reconcile`) treats what has expired. Callers reach
-- the control plane through use cases (application/service.rs), which ask the authorizer (application/auth) before
-- they call the store.
--
-- The files, with the code that each models:
-- Prelude: names of the libraries that all files share, tests, lists, results, texts.
-- Domain: services/server/src/domain; Domain/Schedule is domain/schedule.rs with the plan types of
--   application/store.rs, Domain/Json the JSON values that serde_json hands over, Domain/Name the
--   names, Domain/Entities the records, Domain/Numbers the signed and the floating-point numbers.
-- Scheduler/Misfire, Scheduler/Recurrence, Scheduler/Planner: the files of the same names in
--   services/server/src/scheduler; their children prove.
-- Dispatch: the statements of services/server/src/infrastructure/postgres.rs on runs,
--   run_attempts and outbox. Dispatch/Tables has a record for each row and the tables as functions
--   from keys, Create, Outbox, Attempt and Reconcile one function for each Rust function, under its
--   name, Tail the bounds on stored texts, Status the states and their stored names. Soundness has
--   the invariant and its children prove it of each operation, Moves how rows move, Moves/History
--   all sequences of operations, Guarantees what holds of them, Delivery the way of one dispatch to a
--   worker.
-- Authorization: services/server/src/application/auth.rs and auth/. Capabilities is the registry,
--   Grants the normalized grants and their document, Policy the decision; Registry, Normal,
--   Admission, Visible, Decision, Refusal and Document prove. JSON is the parameter `Wire`, the
--   lookup of the Namespace of a resource the argument `Resolver`.
-- Workflow graphs: services/server/src/domain/workflow.rs. Graph is the definition and `validate`,
--   Join the decision at a node; Counting, Build, Edges, Relax, Kahn, Order and Verdict prove. The
--   `while let` of the search runs on a fuel of one more than the nodes.
-- Workflow orchestration: services/server/src/infrastructure/postgres/workflows.rs. Orchestration's
--   Invocation is the operations on one invocation, over the tables of Dispatch and the decision of
--   Workflow; NodeMoves, Operations and Steps say what each may do; Guarantees, Propagate, Complete
--   and Remaining prove.
--   The fuel of the propagation is the queue and the edges out of pending nodes, and one.
-- Execution: crates/execution/src/lib.rs. Inputs is the validation and the merge of inputs, Template
--   the argument templates; Template/Pieces says what a template that is put together from pieces
--   stands for; Search, Paths, Fuel and Rendering prove. The size of an encoding in
--   JSON is an argument, `encoded_len`. The loop of the parser has the length of the template as
--   fuel, since a round takes off two characters or more; without fuel nothing is left to parse.
-- Application: services/server/src/application/service.rs with model.rs, error.rs and the data of
--   store.rs. Program is a use case as a tree of requests to the ports: the authorizer, the store and
--   the clock; Checks and JobChecks need no port; Catalog, Targets, Schedules and Runs have one
--   function for each use case, under its name; Request is the sum of them. Permissions is the table
--   of what each call of the store takes, Trace runs a use case against any ports, Policy reads the
--   table over the events of a run; Guarded, its children, Served and Authorized prove, the last over
--   `GrantAuthorizer`. Error messages, requests of Workflows and what the store does are left out.
-- Tests: runs on concrete data, and the theorems at them.
--
-- Conventions. A UUID is a number. An instant is a number of nanoseconds from the first instant of
-- the calendar; the microsecond resolution of PostgreSQL is not modelled. One call has one instant,
-- `statement_timestamp()`. A transaction that fails leaves the tables as they were, so an operation
-- returns the new tables or an error. Rows that another transaction has locked are those that a scan
-- leaves out (`FOR UPDATE SKIP LOCKED`). New UUIDs are arguments, and a key that is taken fails the
-- insert. The crates cron_parser, chrono and chrono_tz are the parameter `Calendar`.
--
-- Bounds. The search for a cron occurrence gets 26 * 60 + 1 rounds, one for each minute of its 26
-- hours and one to see the end; the catch-up loop gets `max_catchup_runs` rounds, since each adds an
-- occurrence and it stops at that many.
--
-- Not modelled: the text of HTTP requests and SQL, the catalog statements, process execution, NATS,
-- metrics, the web console, and the floating-point delay before a retry, which is an argument.
-- Foreign keys and the namespace triggers of the schema can only refuse an insert, and its CHECK on
-- the size of a stored tail can only refuse an update.
mod Prelude
pub mod Domain
pub mod Authorization
pub mod Workflow
pub mod Orchestration
pub mod Execution
pub mod Scheduler
pub mod Dispatch
pub mod Application
pub mod Tests
