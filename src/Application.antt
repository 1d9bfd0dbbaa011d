-- ===== src/Application.antt =====
-- services/server/src/application: the use cases behind the HTTP API, over the authorizer, the store
-- and the clock.
pub mod Model
pub mod Program
pub mod Checks
pub mod JobChecks
pub mod Catalog
pub mod Targets
pub mod Schedules
pub mod Runs
pub mod Request
pub mod Permissions
pub mod Policy
pub mod Trace
pub mod Guarded
pub mod Served
pub mod Authorized
