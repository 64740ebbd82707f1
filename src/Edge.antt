-- ===== src/Edge.antt =====
-- server-gateway/src: the gate in front of the game servers.
pub mod IpRateLimit
