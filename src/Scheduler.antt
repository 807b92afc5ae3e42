-- ===== src/Scheduler.antt =====
-- internal/datahub/scheduler.go and order_scheduler.go.
pub mod Ranges
pub mod Quota
pub mod Job
pub mod Dispatch
pub mod Completion
pub mod Success
pub mod OrderHistory
pub mod Trace
mod Scenarios
