-- ===== src/Simulation.antt =====
-- server-game/src/simulation: one tick of the game, and the loop that calls it.
pub mod Floats
pub mod Config
pub mod World
pub mod Effects
pub mod Terrain
pub mod Motion
pub mod Skills
pub mod Roles
pub mod Costs
pub mod Geometry
pub mod Step
pub mod Scheduler
pub mod Tests
