-- ===== src/Rooms.antt =====
-- server-game/src/rooms: the phases of a room, its seats and the lock on starting a game.
pub mod StateMachine
pub mod Roster
pub mod StartLock
pub mod Room
pub mod Transfer
mod Tests
mod RoomTests
mod TransferTests
