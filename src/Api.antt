-- ===== src/Api.antt =====
-- internal/api: the HTTP API.
pub mod Requests
pub mod Handlers
pub mod Effects
pub mod Statuses
pub mod Controls
pub mod Refusals
pub mod Broker
pub mod Streams
pub mod Isolation
