-- ===== src/Rooms/TransferTests.antt =====
-- A room that moves to another server (server-game/src/rooms/hand-off.ts).
use sw_itch_remake.Base.{◌≡◌, refl, true, false, some, List, [], ◌∷◌}
use sw_itch_remake.Types.{account, waiting}
use sw_itch_remake.Rooms.Roster.{members_in_order, occupied_size}
use sw_itch_remake.Rooms.Room.State.{Room}
use sw_itch_remake.Rooms.Room.HandOff.{freeze_for_hand_off, can_hand_off}
use sw_itch_remake.Rooms.RoomTests.{first_room, empty_roster, ann}
use sw_itch_remake.Rooms.Transfer.{
  System, live, settling, moved, done, failed_after, Action, freezes, opens, sends, cancels,
  settles, delivers, adopts, act, run, start, freeze, open_key, send_command, deliver, adopt,
}
use sw_itch_remake.Rooms.Transfer.Invariant.{IsIdle, holds}
use sw_itch_remake.Rooms.Transfer.Laws.{IsResolved, run-one_owner, run-IsResolved}

-- Ann waits in her room.
abbrev quiet_room : Room
quiet_room = record first_room {
  machine = record { state = waiting; entered_at = 100 };
  roster = record empty_roster {
    members = (account 7, record ann { in_current_game = false }) ∷ [];
    join_order = 1;
    host_user_id = some (account 7);
  };
}

-- The claim takes effect, and its answer is lost; the source then finds the move committed.
abbrev uncertain : List Action
uncertain =
    freezes
    ∷ opens done
    ∷ sends failed_after
    ∷ delivers 0 true
    ∷ adopts done true
    ∷ adopts failed_after true
    ∷ []

abbrev midway : System
midway = run (start quiet_room) uncertain

midway-settling : midway.phase ≡ settling 0
unfolding run act freeze open_key send_command deliver adopt freeze_for_hand_off can_hand_off
    members_in_order occupied_size
midway-settling = refl

run-one_owner_example :
    (midway.target ≡ live 0 → IsIdle midway.room)
    × (midway.phase ≡ moved 0 → holds midway.target 0 ≡ true)
run-one_owner_example = run-one_owner quiet_room uncertain 0

run-IsResolved_example : IsResolved 0 (act (act midway (cancels done)) (settles 5000 true))
run-IsResolved_example = run-IsResolved quiet_room uncertain 0 5000 midway-settling
