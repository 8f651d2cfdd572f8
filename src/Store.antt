-- ===== src/Store.antt =====
-- internal/store: the tables, the transactions on them, and the operations of the Store.
pub mod Models
pub mod Db
pub mod Atomicity
pub mod Statements
pub mod Runs
pub mod Attempts
pub mod Claim
pub mod Control
pub mod Maintenance
pub mod Workers
pub mod Schedules
pub mod Tasks
pub mod Scans
pub mod Operations
pub mod Steps
pub mod Refinement
pub mod Reads
pub mod Refusals
pub mod WriteLoop
pub mod Migrate
pub mod Invariant
