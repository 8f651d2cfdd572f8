-- ===== src/Scheduler.antt =====
-- internal/scheduler: the recurring tasks, the due retries and the lost attempts.
pub mod NextRun
pub mod Settings
pub mod Ticks
pub mod Keeps
pub mod Sweeps
pub mod Fires
pub mod Loops
