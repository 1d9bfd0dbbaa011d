-- ===== src/Authorization.antt =====
-- services/server/src/application/auth.rs and its children: what a verified caller may do.
-- `Capabilities` is the registry of permissions, `Grants` the normalized authority of a caller,
-- `Policy` the decision; `Registry`, `Normal` and `Decision` prove.
pub mod Capabilities
pub mod Registry
pub mod Grants
pub mod Normal
pub mod Admission
pub mod Visible
pub mod Policy
pub mod Decision
pub mod Refusal
pub mod Document
