-- ===== src/Protocol.antt =====
-- shared/src/protocol: the wire formats, the skill contract and the experience curve.
pub mod Input
pub mod Progression
pub mod Skills
mod Tests
