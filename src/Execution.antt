-- ===== src/Execution.antt =====
-- crates/execution/src/lib.rs: inputs and argument templates.
pub mod Inputs
pub mod Template
