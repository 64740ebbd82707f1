-- ===== src/Supervisor.antt =====
-- server-supervisor/src: how many game servers run.
pub mod Policy
pub mod Laws
mod Tests
