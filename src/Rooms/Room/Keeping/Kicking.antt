-- ===== src/Rooms/Room/Keeping/Kicking.antt =====
-- Kicks (room.ts) keep the invariant of a room: those who are kicked stay away.
use sw_itch_remake.Base.{
  ℕ, arith, ◌≡◌, refl, sym, subst, String, Bool, true, Option, none, some, option_both, ite_both,
}
use sw_itch_remake.Base.Maps.{get, All-get}
use sw_itch_remake.Types.{ActorId, ActorId-discrete}
use sw_itch_remake.Rooms.Roster.{LobbyMember, LobbyRoster, drop_hold, get_by_player_id, remove}
use sw_itch_remake.Rooms.Roster.Invariant.{IsMemberEntry, keyed}
use sw_itch_remake.Rooms.Roster.Seats.{get_by_player_id-Present}
use sw_itch_remake.Rooms.Room.State.{ErrorCode, Room, emit, state_of, with_roster, member_of}
use sw_itch_remake.Rooms.Room.Lobby.{
  host_refusal, ban, told_kicked, thrown_out, expel, kick, force_kick,
}
use sw_itch_remake.Rooms.Room.Fit.{Fit, is_banned, drop_hold-Fit}
use sw_itch_remake.Rooms.Room.Banning.{remove-found, kicked-Fit, banned-Fit}
use sw_itch_remake.Rooms.Room.Invariant.{Past, Inv, emit-Inv, removal-Inv}

-- A ban adds to the list.
ban-Past : (since : Room) (u : ActorId) (r : Room) → Past since r → Past since (ban u r)
ban-Past since u r p = (p.0, λ w b. ground (arith, p.1 w b))

-- The room that is left when a member is thrown out.
abbrev Left : Room → ActorId → Room → Type 0
Left since u r = Inv since (with_roster (remove u r.roster).0 r)

told_kicked-Left :
    {since : Room}
    → (c : Option ℕ) (u : ActorId) (r : Room) → Left since u r
    → Left since u (told_kicked c r)
unfolding emit with_roster
told_kicked-Left none u r v = v
told_kicked-Left (some c) u r v = record { past = v.past; ready = v.ready; fit = v.fit }

thrown_out-Inv :
    {since : Room} → (c : Option ℕ) (r : Room) → Inv since r → Inv since (thrown_out c r)
thrown_out-Inv none r v = v
thrown_out-Inv (some c) r v = emit-Inv v _

told_kicked-roster : (c : Option ℕ) (r : Room) → (told_kicked c r).roster ≡ r.roster
unfolding emit
told_kicked-roster none r = refl
told_kicked-roster (some c) r = refl

expel-Inv :
    {since : Room}
    → (now : ℕ) (target : LobbyMember) (reason : String) (r : Room)
    → get ActorId-discrete target.user_id r.roster.members ≡ some target
    → Left since target.user_id r
    → Inv since (expel now target reason r)
unfolding expel
expel-Inv now target reason r found left = thrown_out-Inv target.connection _ (
    removal-Inv now target.user_id reason true _
      (λ absent. absurd (
        remove-found target.user_id target (told_kicked target.connection r).roster
          (rw (told_kicked-roster target.connection r) found) absent))
      (told_kicked-Left target.connection target.user_id r left))

-- A member is banned and thrown out.
banned-expel-Inv :
    (before since : Room) (now : ℕ) (target : LobbyMember) (reason : String) (r : Room)
    (roster : LobbyRoster)
    → Inv before r
    → Past since (ban target.user_id r)
    → Fit (state_of r) r.start_snapshot r.kicked_users roster
    → get ActorId-discrete target.user_id roster.members ≡ some target
    → Inv since (expel now target reason (with_roster roster (ban target.user_id r)))
unfolding with_roster
banned-expel-Inv before since now target reason r roster v past fit found =
    expel-Inv now target reason _ found (record {
      past = past;
      ready = v.ready;
      fit =
          kicked-Fit (state_of r) r.start_snapshot r.kicked_users roster fit target.user_id target
            found;
    })

force_kick_since :
    (before since : Room) (now : ℕ) (u : ActorId) (reason : String) (r : Room)
    → Inv before r
    → Past since (ban u r)
    → Inv since (force_kick now u reason r).0
unfolding force_kick
force_kick_since before since now u reason r v past =
    let fit = drop_hold-Fit (state_of r) r.start_snapshot r.kicked_users r.roster v.fit u in
    option_both (λ (x : Room × Bool). Inv since x.0)
      (member_of u (with_roster (drop_hold u r.roster) (ban u r))) _ _
      (λ absent. banned_guest absent) (λ target found. banned_member target found fit)
  where
    banned_guest :
        member_of u (with_roster (drop_hold u r.roster) (ban u r)) ≡ none
        → Inv since (with_roster (drop_hold u r.roster) (ban u r))
    banned_guest absent =
        unfold with_roster in
        record {
          past = past;
          ready = v.ready;
          fit = banned-Fit (state_of r) r.start_snapshot r.kicked_users r.roster v.fit u absent;
        }

    banned_member :
        (target : LobbyMember)
        → member_of u (with_roster (drop_hold u r.roster) (ban u r)) ≡ some target
        → Fit (state_of r) r.start_snapshot r.kicked_users (drop_hold u r.roster)
        → Inv since (expel now target reason (with_roster (drop_hold u r.roster) (ban u r)))
    banned_member target found fit =
        let there : get ActorId-discrete u r.roster.members ≡ some target =
          unfold with_roster in found in
        let key : target.user_id ≡ u =
          (All-get ActorId-discrete (IsMemberEntry r.roster.capacity r.roster.join_order) u target
            r.roster.members v.fit.seats.member_entries there).0 in
        subst
          (λ x. Inv since (expel now target reason (with_roster (drop_hold u r.roster) (ban x r))))
          key
          (banned-expel-Inv before since now target reason r (drop_hold u r.roster) v
            (subst (λ x. Past since (ban x r)) (sym key) past) fit
            (subst (λ x. get ActorId-discrete x r.roster.members ≡ some target) (sym key) there))

pub force_kick-Inv :
    {since : Room}
    → (now : ℕ) (u : ActorId) (reason : String) (r : Room) → Inv since r
    → Inv since (force_kick now u reason r).0
force_kick-Inv {since} now u reason r v =
    force_kick_since since since now u reason r v (ban-Past since u r v.past)

-- The member whom a number names.
kicked-expel-Inv :
    (before since : Room) (now player_id : ℕ) (r : Room) (target : LobbyMember)
    → Inv before r
    → Past since (ban target.user_id r)
    → get_by_player_id player_id r.roster ≡ some target
    → Inv since (expel now target "kicked" (ban target.user_id r))
unfolding with_roster
kicked-expel-Inv before since now player_id r target v past found =
    banned-expel-Inv before since now target "kicked" r r.roster v past v.fit
      (get_by_player_id-Present r.roster v.fit.seats.unique_members
        (keyed r.roster.capacity r.roster.join_order r.roster.members v.fit.seats.member_entries)
        player_id target found).0

pub kick-Inv :
    {since : Room}
    → (now : ℕ) (requester : ActorId) (player_id : ℕ) (r : Room) → Inv since r
    → Inv since (kick now requester player_id r).0
unfolding kick
kick-Inv {since} now requester player_id r v =
    let P = λ (x : Room × Option ErrorCode). Inv since x.0 in
    option_both P (host_refusal requester r) _ _
      (λ may.
        option_both P (get_by_player_id player_id r.roster) _ _ (λ e. v)
          (λ target found.
            ite_both P (ActorId-discrete target.user_id requester) _ _ (λ self. v)
              (λ other.
                kicked-expel-Inv since since now player_id r target v
                  (ban-Past since target.user_id r v.past) found)))
      (λ refusal e. v)

listed : (u : ActorId) (r : Room) → is_banned u (ban u r).kicked_users ≡ true
listed u r = ground arith

-- Whoever is kicked, or expelled, is on the list.
pub force_kick-bans :
    (now : ℕ) (u : ActorId) (reason : String) (r : Room)
    → Inv r r
    → is_banned u (force_kick now u reason r).0.kicked_users ≡ true
force_kick-bans now u reason r v =
    (force_kick_since r (ban u r) now u reason r v (refl, λ w b. b)).past.1 u (listed u r)

pub kick-bans :
    (now : ℕ) (requester : ActorId) (player_id : ℕ) (target : LobbyMember) (r : Room)
    → Inv r r
    → get_by_player_id player_id r.roster ≡ some target
    → (kick now requester player_id r).1 ≡ none
    → is_banned target.user_id (kick now requester player_id r).0.kicked_users ≡ true
unfolding kick
kick-bans now requester player_id target r v found =
    let P = λ (x : Room × Option ErrorCode).
      x.1 ≡ none → is_banned target.user_id x.0.kicked_users ≡ true in
    option_both P (host_refusal requester r) _ _
      (λ may. rw found (
        ite_both P (ActorId-discrete target.user_id requester) _ _ (λ self e. absurd (cc))
          (λ other e.
            (kicked-expel-Inv r (ban target.user_id r) now player_id r target v (refl, λ w b. b)
                found).past.1
              target.user_id (listed target.user_id r))))
      (λ refusal h e. absurd (cc))
