-- ===== src/Visibility.antt =====
-- shared/src/visibility and server-game/src/game/snapshot-view.ts: what a player may see, and what is sent.
pub mod Core
pub mod Snapshot
pub mod Secrecy
pub mod Laws
pub mod Window
mod Tests
