-- ===== src/Store/Invariant.antt =====
-- What holds of the tables between two writes.
pub mod Keys
pub mod Workers
pub mod Limits
pub mod Recovery
pub mod Numbers
pub mod Budgets
pub mod Histories
pub mod Endings
