-- ===== src/Store/Refinement.antt =====
-- The operations of internal/store against the contract of Steps.antt.
pub mod Endings
pub mod Eligible
pub mod Claims
pub mod Controls
pub mod Upkeep
pub mod Performs
pub mod Calls
