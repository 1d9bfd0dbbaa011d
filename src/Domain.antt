-- ===== src/Domain.antt =====
-- services/server/src/domain: the entities of the control plane.
pub mod Json
pub mod Schedule
pub mod Numbers
pub mod Name
pub mod Entities
