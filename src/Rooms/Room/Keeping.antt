-- ===== src/Rooms/Room/Keeping.antt =====
-- Each operation of room.ts keeps the invariant of a room.
pub mod Time
pub mod Joining
pub mod Leaving
pub mod Kicking
pub mod Lobby
pub mod Game
pub mod HandOff
