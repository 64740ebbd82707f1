-- ===== src/Rooms/Room/Keeping/HandOff.antt =====
-- The making of a room and its move to another server (room.ts): the invariant holds from the start.
use sw_itch_remake.Base.{
  ℕ, ◌+◌, ◌≡◌, refl, subst, Bool, true, false, ◌&&◌, ◌||◌, not, Option, none, some, List, [], ◌∷◌,
  is_some, option_both, if_both, All, arith, inl, inr, if◌then◌else◌, Bool-cases,
}
use sw_itch_remake.Base.Maps.{get-set}
use sw_itch_remake.Types.{
  ActorId, ActorId-discrete, RoomState, allocating, waiting, countdown, playing, post_game, closed,
}
use sw_itch_remake.Rooms.StateMachine.{is_same, transition}
use sw_itch_remake.Rooms.StateMachine
use sw_itch_remake.Rooms.Roster.{
  LobbyMember, LobbyRoster, HoldResult, held, duplicate, full, hold, AdoptedRoomMember,
  adopted_member, adopt,
}
use sw_itch_remake.Rooms.Roster
use sw_itch_remake.Rooms.Roster.Invariant
use sw_itch_remake.Rooms.Roster.Moving.{Arrives, adopt-Inv}
use sw_itch_remake.Rooms.Room.State.{
  Room, RoomOptions, RoomStartSnapshot, emit, go_to, state_of, with_roster, map_members, map_values,
}
use sw_itch_remake.Rooms.Room.HandOff.{
  room_with, owner_is_fresh, owned, new, can_hand_off, freeze_for_hand_off, cancel_hand_off,
  release_after_hand_off, graced, refresh_hand_off_grace, adopt_all, adopt_members,
}
use sw_itch_remake.Rooms.Room.Seating.{Same}
use sw_itch_remake.Rooms.Room.Fit.{InLine, Lined, Fit, is_banned}
use sw_itch_remake.Rooms.Room.Entering.{hold-Fit, map_members-Fit, other_phase}
use sw_itch_remake.Rooms.Room.Invariant.{
  Past, Inv, with_roster-Inv, go_to-Inv, open-closes, is_same-eq,
}

pub freeze_for_hand_off-Inv :
    {since : Room} → (r : Room) → Inv since r → Inv since (freeze_for_hand_off r).0
unfolding freeze_for_hand_off
freeze_for_hand_off-Inv {since} r v =
    if_both (λ (x : Room × Bool). Inv since x.0) (can_hand_off r) _ _
      (λ e. record { past = v.past; ready = v.ready; fit = v.fit }) (λ e. v)

pub cancel_hand_off-Inv : {since : Room} → (r : Room) → Inv since r → Inv since (cancel_hand_off r)
unfolding cancel_hand_off
cancel_hand_off-Inv r v = record { past = v.past; ready = v.ready; fit = v.fit }

-- A room, with an exception thrown or not.
abbrev pub marked : Room → Bool → Room
marked r b = if b then record r { thrown = true } else r

closed_again-Inv :
    (since : Room) (now : ℕ) (x : Room)
    → state_of x ≡ closed
    → Past since x
    → Fit closed x.start_snapshot x.kicked_users x.roster
    → Inv (record since { thrown = true }) (go_to closed now x)
unfolding go_to transition
closed_again-Inv since now x e past fit =
    rw e (record { past = (refl, past.1); ready = tt; fit = fit })

-- Releasing a room that is closed already throws, and nothing else does.
pub release_after_hand_off-Inv :
    {since : Room}
    → (now : ℕ) (r : Room) → Inv since r
    → Inv (marked since (is_same (state_of r) closed)) (release_after_hand_off now r)
unfolding release_after_hand_off emit with_roster
release_after_hand_off-Inv {since} now r v = elim (Bool-cases (is_same (state_of r) closed)) [
  | inl over ↦
      rw over (closed_again-Inv since now _ (is_same-eq (state_of r) closed over) v.past left)
  | inr open' ↦
      rw open'
        (go_to-Inv {since = since} closed now _ (open-closes (state_of r) open') v.past tt left)
]
  where
    left :
        Fit closed r.start_snapshot r.kicked_users
          (map_members (λ m. record m { connection = none }) r.roster)
    left =
        map_members-Fit (state_of r) r.start_snapshot r.kicked_users r.roster v.fit _ closed
          r.start_snapshot (λ m. (refl, refl, refl, refl, refl)) tt

graced-Same : (until : ℕ) (m : LobbyMember) → Same m (graced until m)
graced-Same until m =
    if_both (Same m) (is_some m.connection) _ _ (λ e. (refl, refl, refl, refl, refl))
      (λ e. (refl, refl, refl, refl, refl))

graced-All :
    (until : ℕ) (s : Option RoomStartSnapshot) (ms : List (ActorId × LobbyMember))
    → All (InLine s) ms
    → All (InLine s) (map_values (graced until) ms)
graced-All until s [] h = tt
graced-All until s ((u, m) ∷ ms) h = (
  if_both (λ x. InLine s (u, x)) (is_some m.connection) _ _ (λ e. h.0) (λ e. h.0),
  graced-All until s ms h.1,
)

graced-Lined :
    (until : ℕ) (st : RoomState) (s : Option RoomStartSnapshot) (r : LobbyRoster)
    → Lined st s r
    → Lined st s (map_members (graced until) r)
graced-Lined until playing s r l = (graced-All until s r.members l.0, l.1)
graced-Lined until countdown s r l = l
graced-Lined until allocating s r l = tt
graced-Lined until waiting s r l = tt
graced-Lined until post_game s r l = tt
graced-Lined until closed s r l = tt

pub refresh_hand_off_grace-Inv :
    {since : Room} → (now : ℕ) (r : Room) → Inv since r → Inv since (refresh_hand_off_grace now r)
unfolding refresh_hand_off_grace
refresh_hand_off_grace-Inv now r v = with_roster-Inv v _ (
    map_members-Fit (state_of r) r.start_snapshot r.kicked_users r.roster v.fit _ (state_of r)
      r.start_snapshot (graced-Same _)
      (graced-Lined _ (state_of r) r.start_snapshot r.roster v.fit.lined))

room_with-Inv :
    (now : ℕ) (options : RoomOptions) (roster : LobbyRoster)
    → Fit allocating none [] roster
    → Inv (record (room_with now options roster) { thrown = false }) (room_with now options roster)
unfolding StateMachine.new
room_with-Inv now options roster f = record { past = (refl, λ u b. b); ready = tt; fit = f }

-- What the constructor makes, if it does not throw.
abbrev Made : Option Room → Type 0
Made none = Unit
Made (some r) = Inv (record r { thrown = false }) r

owned-Made :
    (now : ℕ) (options : RoomOptions) (x : LobbyRoster × HoldResult)
    → Fit allocating none [] x.0
    → Made (owned now options x)
owned-Made now options (roster, held seat) f = room_with-Inv now options roster f
owned-Made now options (roster, duplicate) f = tt
owned-Made now options (roster, full) f = tt

new-Made : (now : ℕ) (options : RoomOptions) → Made (new now options)
unfolding new
new-Made now options =
    if_both Made (not (is_some options.owner_reservation) && not (is_some options.adopted)) _ _
      (λ e. tt)
      (λ e.
        if_both Made
          (not (owner_is_fresh options) || not (options.is_known_map options.map_id options.mode)) _
          _ (λ e. tt)
          (λ e.
            option_both Made (Roster.new options.capacity) _ _ (λ e. tt)
              (λ roster made.
                let fit : Fit allocating none [] roster = record {
                  seats = Roster.Invariant.new-Inv options.capacity roster made;
                  banned = λ u b. cc;
                  lined = tt;
                } in
                option_both Made options.owner_reservation _ _
                  (λ e. room_with-Inv now options roster fit)
                  (λ reservation e. owned-Made now options _ (
                    hold-Fit allocating none [] roster fit reservation (λ n. false) refl refl
                      (λ seat p b. cc))))))

pub new-Inv :
    (now : ℕ) (options : RoomOptions) (r : Room)
    → new now options ≡ some r
    → Inv (record r { thrown = false }) r
new-Inv now options r made = subst Made made (new-Made now options)

-- Those who come with a room sit down one after another, each on a seat that nobody has, and none was kicked.
abbrev pub Settles : List ActorId → List AdoptedRoomMember → ℕ → LobbyRoster → Type 0
Settles kicked [] until roster = Unit
Settles kicked (m ∷ ms) until roster =
    (is_banned m.user_id kicked ≡ false)
    × Arrives m roster
    × Settles kicked ms until (adopt m until roster)

adopt-Fit :
    (s : Option RoomStartSnapshot) (kicked : List ActorId) (m : AdoptedRoomMember) (until : ℕ)
    (roster : LobbyRoster)
    → Fit allocating s kicked roster
    → is_banned m.user_id kicked ≡ false
    → Arrives m roster
    → Fit allocating s kicked (adopt m until roster)
unfolding adopt
adopt-Fit s kicked m until roster f fine a = record {
  seats = unfold adopt in adopt-Inv m until roster f.seats a;
  banned = λ w b. elim (ActorId-discrete m.user_id w) [
    | yes e ↦ absurd (subst (λ x. is_banned x kicked ≡ true → ⊥) e (λ h. cc) b)
    | no ne ↦ (
      (f.banned w b).0,
      ground (
        arith,
        (f.banned w b).1,
        get-set ActorId-discrete w m.user_id (adopted_member m until) roster.members,
      ),
    )
  ];
  lined = tt;
}

adopt_all-Fit :
    (s : Option RoomStartSnapshot) (kicked : List ActorId) (ms : List AdoptedRoomMember) (until : ℕ)
    (roster : LobbyRoster)
    → Fit allocating s kicked roster
    → Settles kicked ms until roster
    → Fit allocating s kicked (adopt_all ms until roster)
adopt_all-Fit s kicked [] until roster f p = f
adopt_all-Fit s kicked (m ∷ ms) until roster f p =
    adopt_all-Fit s kicked ms until (adopt m until roster)
      (adopt-Fit s kicked m until roster f p.0 p.1) p.2

-- A room that has just been made opens with those who came with it.
pub adopt_members-Inv :
    {since : Room}
    → (now : ℕ) (members : List AdoptedRoomMember) (r : Room)
    → is_same (state_of r) allocating ≡ true
    → Settles r.kicked_users members (now + r.options.timing.reconnect_grace_ms) r.roster
    → Inv since r
    → Inv since (adopt_members now members r)
unfolding adopt_members with_roster emit
adopt_members-Inv {since} now members r here p v =
    let e : state_of r ≡ allocating = is_same-eq (state_of r) allocating here in
    let f =
      adopt_all-Fit r.start_snapshot r.kicked_users members
        (now + r.options.timing.reconnect_grace_ms) r.roster
        (subst (λ st. Fit st r.start_snapshot r.kicked_users r.roster) e v.fit) p in
    let opened : Inv since (
        go_to waiting now (
          with_roster (adopt_all members (now + r.options.timing.reconnect_grace_ms) r.roster) r)) =
      go_to-Inv {since = since} waiting now _ (rw e refl) v.past tt
        (other_phase allocating r.start_snapshot r.kicked_users _ f waiting r.start_snapshot tt) in
    rw here (record { past = opened.past; ready = opened.ready; fit = opened.fit })
