-- ===== src/Types.antt =====
-- The types that several components share: who a connection or a seat belongs to
-- (shared/src/control/commands.ts).
use sw_itch_remake.Base.{ℕ, String, ℕ_discrete, String_discrete, Bool, true, false}

-- `ActorId`: an account's number, or a guest's text.
pub data ActorId : Type 0 where
  account : ℕ → ActorId
  guest : String → ActorId

unfoldable pub ActorId-discrete : Discrete ActorId
ActorId-discrete = hlevel (ℕ_discrete, String_discrete)

-- `typeof userId === 'string'`.
abbrev pub is_guest : ActorId → Bool
is_guest (account n) = false
is_guest (guest s) = true

-- `LobbyStats` (shared/src/protocol/events.ts), the two percentages in tenths.
pub record LobbyStats : Type 0 where
  pub games : ℕ
  pub wins : ℕ
  pub win_rate : ℕ
  pub switch_success_rate : ℕ

-- `RoomState` and `PlayerRole` (shared/src/protocol/events.ts).
pub data RoomState : Type 0 where
  allocating waiting countdown playing post_game closed : RoomState

pub data PlayerRole : Type 0 where
  player waiting spectator : PlayerRole
