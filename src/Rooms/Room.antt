-- ===== src/Rooms/Room.antt =====
-- server-game/src/rooms/room.ts: one room, from its first seat to its end. The children have the state, the
-- operations by subject, and what holds of a room after any operations.
pub mod State
pub mod Broadcast
pub mod Closing
pub mod Advance
pub mod Joining
pub mod Lobby
pub mod Game
pub mod HandOff
pub mod Seating
pub mod Fit
pub mod Entering
pub mod Banning
pub mod Invariant
pub mod Keeping
pub mod Calls
pub mod Histories
