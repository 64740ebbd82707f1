-- ===== src/Simulation/Costs.antt =====
-- What a request for a skill costs (skills.ts): a refusal of some kinds nothing, all else the cooldown.
pub mod Searches
pub mod Refusals
pub mod Cooldowns
