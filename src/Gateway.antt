-- ===== src/Gateway.antt =====
-- server-game/src/gateway: connection accounting, tickets and rate limits.
pub mod Connections
pub mod Tickets
pub mod RateLimit
pub mod Violations
mod Tests
