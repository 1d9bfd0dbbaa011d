-- ===== src/Scheduler.antt =====
-- services/server/src/scheduler: when a Schedule is due, what it creates, and when it is next due.
pub mod Misfire
pub mod Recurrence
pub mod Planner
