-- ===== src/Rooms/Transfer.antt =====
-- rooms/hand-off.ts and `#adoptRoom` of redis/command-consumer.ts (server-game/src): one waiting room, the server that
-- has it and the server that is asked to take it, and the key in Redis on which both contend. Each await is a step, so
-- that the steps of the two servers interleave in every way. A call of Redis is atomic: it answers, or it fails, and
-- then it took effect before or never does. The room changes only by the operations of its move.
pub mod Invariant
pub mod Starting
pub mod Settling
pub mod Adopting
pub mod Laws
use sw_itch_remake.Base.{
  ℕ, ◌+◌, Bool, true, false, ◌&&◌, ◌||◌, not, Option, none, some, ◌==◌, if◌then◌else◌, is_some,
  List, [], ◌∷◌,
}
use sw_itch_remake.Rooms.Room.State.{Room}
use sw_itch_remake.Rooms.Room.HandOff.{freeze_for_hand_off, cancel_hand_off, release_after_hand_off}

-- The values of the key of a transfer.
pub data Transfer : Type 0 where
  pending cancelled committed : Transfer

pub data Answer : Type 0 where
  done failed_before failed_after : Answer

abbrev pub took_effect : Answer → Bool
took_effect failed_before = false
took_effect _ = true

-- Where `handOffWaitingRooms` stands with the room: it serves; it is frozen, and the key is about to be set, the
-- command about to be sent, the cancellation about to be asked for, the key about to be read; it has gone.
pub data Phase : Type 0 where
  serving : Phase
  opening sending settling closing : ℕ → Phase
  moved : ℕ → Phase

-- Where `#adoptRoom` stands with a staged room: the key is about to be read, the room about to be claimed, the key
-- about to be read after an error; or the command waits for its next delivery.
pub data Progress : Type 0 where
  reading claiming doubting waiting : Progress

pub data Target : Type 0 where
  absent : Target
  staged : ℕ → Progress → Target
  live : ℕ → Target

pub record System : Type 0 where
  pub room : Room
  pub phase : Phase
  -- The transfer ids are numbered in the order in which they are made.
  pub next_transfer : ℕ
  pub keys : ℕ → Option Transfer
  pub sent : ℕ → Bool
  pub target : Target

abbrev pub put_key : ℕ → Transfer → (ℕ → Option Transfer) → ℕ → Option Transfer
put_key t v keys u = if u == t then some v else keys u

abbrev pub is_pending : Option Transfer → Bool
is_pending (some pending) = true
is_pending _ = false

abbrev pub is_committed : Option Transfer → Bool
is_committed (some committed) = true
is_committed _ = false

-- `compareAndSet` from 'pending'.
abbrev pub replace_pending : ℕ → Transfer → (ℕ → Option Transfer) → ℕ → Option Transfer
replace_pending t v keys = if is_pending (keys t) then put_key t v keys else keys

-- The source.
abbrev pub frozen : Room × Bool → System → System
frozen (room, false) s = s
frozen (room, true) s = record s {
  room = room;
  phase = opening s.next_transfer;
  next_transfer = s.next_transfer + 1;
}

unfoldable pub freeze : System → System
freeze s = elim s.phase [ serving ↦ frozen (freeze_for_hand_off s.room) s | _ ↦ s ]

abbrev pub cancelled_room : System → System
cancelled_room s = record s { room = cancel_hand_off s.room; phase = serving }

-- `setPxIfAbsent`: a failure cancels the move.
abbrev pub opened : Answer → ℕ → System → System
opened done t s =
    if is_some (s.keys t)
    then cancelled_room s
    else record s { phase = sending t; keys = put_key t pending s.keys }
opened failed_before t s = cancelled_room s
opened failed_after t s =
    if is_some (s.keys t)
    then cancelled_room s
    else record (cancelled_room s) { keys = put_key t pending s.keys }

unfoldable pub open_key : Answer → System → System
open_key answer s = elim s.phase [ opening t ↦ opened answer t s | _ ↦ s ]

abbrev pub noted : ℕ → (ℕ → Bool) → ℕ → Bool
noted t sent u = u == t || sent u

-- `xAdd`: whatever becomes of it, the outcome is settled next.
abbrev pub given_out : Answer → ℕ → System → System
given_out answer t s = record s {
  phase = settling t;
  sent = if took_effect answer then noted t s.sent else s.sent;
}

unfoldable pub send_command : Answer → System → System
send_command answer s = elim s.phase [ sending t ↦ given_out answer t s | _ ↦ s ]

-- `settle`: the cancellation is tried; where that fails the room stays frozen, and is settled later.
abbrev pub cancellation : Answer → ℕ → System → System
cancellation done t s = record s { phase = closing t; keys = replace_pending t cancelled s.keys }
cancellation failed_before t s = s
cancellation failed_after t s = record s { keys = replace_pending t cancelled s.keys }

unfoldable pub try_cancel : Answer → System → System
try_cancel answer s = elim s.phase [ settling t ↦ cancellation answer t s | _ ↦ s ]

-- Then the key says what has become of the move.
abbrev pub outcome : ℕ → ℕ → Option Transfer → System → System
outcome now t (some committed) s = record s {
  room = release_after_hand_off now s.room;
  phase = moved t;
}
outcome now t (some cancelled) s = cancelled_room s
outcome now t _ s = record s { phase = settling t }

abbrev pub read_outcome : ℕ → Bool → ℕ → System → System
read_outcome now true t s = outcome now t (s.keys t) s
read_outcome now false t s = record s { phase = settling t }

unfoldable pub settle : ℕ → Bool → System → System
settle now answered s = elim s.phase [ closing t ↦ read_outcome now answered t s | _ ↦ s ]

-- The target. `accepts` is the answer of its own checks, and of `adoptRoom`; a room that is there already is not
-- adopted again.
abbrev pub delivered : ℕ → Bool → Target → Target
delivered t accepts absent = if accepts then staged t reading else absent
delivered t accepts (staged u waiting) = if u == t then staged t reading else staged u waiting
delivered t accepts target = target

unfoldable pub deliver : ℕ → Bool → System → System
deliver t accepts s = if s.sent t then record s { target = delivered t accepts s.target } else s

-- The first look at the key.
abbrev pub looked : Bool → ℕ → System → Target
looked false t s = staged t doubting
looked true t s = if is_committed (s.keys t) then live t else staged t claiming

-- `claimAdoptedRoom`, which sets the key with the directory and the claims of the members; `owned` says whether those
-- are still as they were.
abbrev pub claim_key : ℕ → Bool → (ℕ → Option Transfer) → ℕ → Option Transfer
claim_key t owned keys = if owned then replace_pending t committed keys else keys

abbrev pub claimed : Answer → Bool → ℕ → System → System
claimed done owned t s = record s {
  keys = claim_key t owned s.keys;
  target = if owned && is_pending (s.keys t) then live t else staged t doubting;
}
claimed failed_before owned t s = record s { target = staged t doubting }
claimed failed_after owned t s = record s {
  keys = claim_key t owned s.keys;
  target = staged t doubting;
}

-- The second look, after an error: only what is known not to be committed is given up.
abbrev pub looked_again : Bool → ℕ → System → Target
looked_again false t s = staged t waiting
looked_again true t s = if is_committed (s.keys t) then live t else absent

abbrev pub adoption_step : Answer → Bool → Target → System → System
adoption_step answer owned absent s = s
adoption_step answer owned (live t) s = s
adoption_step answer owned (staged t waiting) s = s
adoption_step answer owned (staged t reading) s = record s {
  target = looked (took_effect answer) t s;
}
adoption_step answer owned (staged t claiming) s = claimed answer owned t s
adoption_step answer owned (staged t doubting) s = record s {
  target = looked_again (took_effect answer) t s;
}

unfoldable pub adopt : Answer → Bool → System → System
adopt answer owned s = adoption_step answer owned s.target s

-- Everything that may happen next.
pub data Action : Type 0 where
  freezes : Action
  opens sends cancels : Answer → Action
  settles : ℕ → Bool → Action
  delivers : ℕ → Bool → Action
  adopts : Answer → Bool → Action

unfoldable pub act : System → Action → System
unfolding freeze open_key send_command try_cancel settle deliver adopt
act s freezes = freeze s
act s (opens answer) = open_key answer s
act s (sends answer) = send_command answer s
act s (cancels answer) = try_cancel answer s
act s (settles now answered) = settle now answered s
act s (delivers t accepts) = deliver t accepts s
act s (adopts answer owned) = adopt answer owned s

unfoldable pub run : System → List Action → System
run s [] = s
run s (a ∷ actions) = run (act s a) actions

-- A room that serves, before any attempt.
abbrev pub start : Room → System
start room = record {
  room = room;
  phase = serving;
  next_transfer = 0;
  keys = λ t. none;
  sent = λ t. false;
  target = absent;
}
