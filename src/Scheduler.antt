-- ===== src/Scheduler.antt =====
-- internal/services/scheduler: the tasks and their store in memory, the handlers, what a run of a
-- task does, and the scheduler over a store and a cron.
pub mod Store
pub mod Handlers
pub mod Execution
pub mod Cron
pub mod Jobs
mod Tests
