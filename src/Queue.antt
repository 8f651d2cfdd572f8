-- ===== src/Queue.antt =====
-- internal/queue: the Go handlers and the execution of a task.
pub mod Registry
pub mod RunOnce
pub mod Outcomes
pub mod Pool
pub mod Keeps
pub mod Results
