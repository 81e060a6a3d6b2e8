-- ===== src/Tests.antt =====
-- Concrete inputs, and each theorem that has conditions applied to one.
pub mod Fixtures
pub mod Access
pub mod Bodies
pub mod Readings
pub mod Logins
pub mod Pools
pub mod Probes
pub mod Responses
pub mod Sessions
pub mod Fleets
pub mod Forwards
