-- ===== src/Rooms/Room/Keeping/Time.antt =====
-- `advance` of room.ts keeps the invariant of a room: nobody is lost track of, whatever runs out.
use sw_itch_remake.Base.{
  ℕ, ◌≡◌, refl, sym, subst, true, false, ◌&&◌, ◌||◌, not, Option, none, some, List, [], ◌∷◌, ◌==◌,
  arith, if◌then◌else◌, is_some, option_both, if_both, All,
}
use sw_itch_remake.Base.Maps.{get}
use sw_itch_remake.Types.{
  ActorId, ActorId-discrete, RoomState, countdown, playing, post_game, waiting,
}
use sw_itch_remake.Rooms.StateMachine.{is_same}
use sw_itch_remake.Rooms.Roster.{LobbyMember, size, occupied_size}
use sw_itch_remake.Rooms.Room.State.{
  RoomStartSnapshot, Room, emit, state_of, map_values, member_of, projection, same_projection,
}
use sw_itch_remake.Rooms.Room.Advance.{
  admission_over, grace_over, admission_cleared, expire_member, expire_user, expire_users, lined_up,
  game_begun, begin_with, begin_game, back_in_lobby, return_to_lobby, close_if_deserted,
  advance_open, advance, is_over,
}
use sw_itch_remake.Rooms.Room.Fit.{InLine, OffLine, Fit, purge_expired_holds-Fit, put_member-Fit}
use sw_itch_remake.Rooms.Room.Entering.{map_members-Fit}
use sw_itch_remake.Rooms.Room.Invariant.{
  Ready, Inv, Past, emit-Inv, broadcast_current_game-Inv, broadcast_lobby_state-Inv,
  with_roster-Inv, go_to-Inv, is_same-eq, close-Inv, remove_member-Inv,
}

expire_member-Inv :
    {since : Room}
    → (now : ℕ) (u : ActorId) (m : LobbyMember) (r : Room)
    → get ActorId-discrete u r.roster.members ≡ some m
    → Inv since r
    → Inv since (expire_member now m r)
unfolding expire_member
expire_member-Inv {since} now u m r found v =
    let cleared : Inv since (admission_cleared now m r) =
      if_both (Inv _) (admission_over now m) _ _
        (λ over. with_roster-Inv v _ (
          put_member-Fit (state_of r) r.start_snapshot r.kicked_users r.roster v.fit u m _ found
            (refl, refl, refl, refl, refl) (λ a l. l)))
        (λ pending. v) in
    if_both (Inv _) (admission_over now m && not (is_some m.reconnect_until)) _ _
      (λ e. remove_member-Inv now m.user_id _ false _ cleared)
      (λ e.
        if_both (Inv _) (grace_over now m) _ _
          (λ over. remove_member-Inv now m.user_id _ false _ cleared) (λ waits. cleared))

expire_users-Inv :
    {since : Room}
    → (now : ℕ) (us : List ActorId) (r : Room) → Inv since r
    → Inv since (expire_users now us r)
unfolding expire_users expire_user
expire_users-Inv now [] r v = v
expire_users-Inv now (u ∷ us) r v =
    expire_users-Inv now us (expire_user now u r)
      (option_both (Inv _) (member_of u r) _ _ (λ e. v) (λ m e. expire_member-Inv now u m r e v))

lined_up-All :
    (s : RoomStartSnapshot) (ms : List (ActorId × LobbyMember))
    → All (InLine (some s)) (map_values (lined_up s) ms)
lined_up-All s [] = tt
lined_up-All s ((u, m) ∷ ms) = ((refl, ground arith, ground arith), lined_up-All s ms)

-- Nobody has a seat on hold in a countdown, so nobody can get a number of the game that begins.
begin_with-Inv :
    {since : Room}
    → (now : ℕ) (s : RoomStartSnapshot) (r : Room) → Past since r
    → state_of r ≡ countdown
    → r.start_snapshot ≡ some s
    → Fit countdown (some s) r.kicked_users r.roster
    → Inv since (begin_with now s r)
unfolding begin_with emit
begin_with-Inv {since} now s r past counting ready fit =
    let begun : Inv since (game_begun now s (emit _ r)) =
      go_to-Inv playing now _ (rw counting) past (rw ready) (
        rw ready (
          map_members-Fit countdown (some s) r.kicked_users r.roster fit (lined_up s) playing
            (some s) (λ m. (refl, refl, refl, refl, refl))
            (
              lined_up-All s r.roster.members,
              subst (All (OffLine (some s))) (sym fit.lined) tt,
            ))) in
    broadcast_lobby_state-Inv
      (broadcast_current_game-Inv
        (record { past = begun.past; ready = begun.ready; fit = begun.fit }) _)
      now

begin-Ready-Inv :
    {since : Room}
    → (now : ℕ) (r : Room) (st : RoomState) (o : Option RoomStartSnapshot) → state_of r ≡ st
    → st ≡ countdown
    → r.start_snapshot ≡ o
    → Past since r
    → Ready st r.countdown_ends_at r.post_game_ends_at o
    → Fit st o r.kicked_users r.roster
    → Inv since (elim o [ none ↦ record r { thrown = true } | some s ↦ begin_with now s r ])
begin-Ready-Inv now r countdown none here c same past ready fit = cc (ready.1)
begin-Ready-Inv now r countdown (some s) here c same past ready fit =
    begin_with-Inv now s r past here same fit
begin-Ready-Inv now r playing o here c same past ready fit = cc
begin-Ready-Inv now r waiting o here c same past ready fit = cc
begin-Ready-Inv now r post_game o here c same past ready fit = cc
begin-Ready-Inv now r RoomState.allocating o here c same past ready fit = cc
begin-Ready-Inv now r RoomState.closed o here c same past ready fit = cc

begin_game-Inv : {since : Room} → (now : ℕ) (r : Room) → Inv since r → Inv since (begin_game now r)
unfolding begin_game
begin_game-Inv now r v =
    if_both (Inv _) (is_same (state_of r) countdown && is_over r.countdown_ends_at now) _ _
      (λ e.
        begin-Ready-Inv now r (state_of r) r.start_snapshot refl
          (is_same-eq (state_of r) countdown (ground arith)) refl v.past v.ready v.fit)
      (λ e. v)

return_to_lobby-Inv :
    {since : Room} → (now : ℕ) (r : Room) → Inv since r → Inv since (return_to_lobby now r)
unfolding return_to_lobby
return_to_lobby-Inv now r v =
    if_both (Inv _) (is_same (state_of r) post_game && is_over r.post_game_ends_at now) _ _
      (λ e.
        let here : state_of r ≡ post_game = is_same-eq (state_of r) post_game (ground arith) in
        broadcast_lobby_state-Inv
          (go_to-Inv waiting now _ (rw here) v.past tt (
            map_members-Fit (state_of r) r.start_snapshot r.kicked_users r.roster v.fit
              back_in_lobby waiting none (λ m. (refl, refl, refl, refl, refl)) tt))
          now)
      (λ e. v)

close_if_deserted-Inv :
    {since : Room} → (now : ℕ) (r : Room) → Inv since r → Inv since (close_if_deserted now r)
unfolding close_if_deserted
close_if_deserted-Inv now r v =
    if_both (Inv _) (not (is_same (state_of r) RoomState.allocating) || occupied_size r.roster == 0)
      _ _ (λ e. close-Inv now r v) (λ e. v)

swept-Inv :
    {since : Room}
    → (now : ℕ) (r : Room) → Inv since r
    → Inv since (
        if size r.roster == 0
        then close_if_deserted now r
        else return_to_lobby now (begin_game now r))
swept-Inv now r v =
    if_both (Inv _) (size r.roster == 0) _ _ (λ e. close_if_deserted-Inv now r v)
      (λ e. return_to_lobby-Inv now _ (begin_game-Inv now r v))

advance_open-Inv :
    {since : Room} → (now : ℕ) (r : Room) → Inv since r → Inv since (advance_open now r)
unfolding advance_open
advance_open-Inv now r v =
    if_both (Inv _) (is_same (state_of r) RoomState.closed) _ _ (λ e. v)
      (λ e. swept-Inv now _ (
        expire_users-Inv now _ _ (
          with_roster-Inv v _ (
            purge_expired_holds-Fit (state_of r) r.start_snapshot r.kicked_users r.roster v.fit
              now))))

pub advance-Inv : {since : Room} → (now : ℕ) (r : Room) → Inv since r → Inv since (advance now r)
unfolding advance
advance-Inv now r v =
    if_both (Inv _) r.handing_off _ _ (λ e. v)
      (λ e.
        if_both (Inv _) (same_projection (projection r) (projection (advance_open now r))) _ _
          (λ same. advance_open-Inv now r v) (λ other. emit-Inv (advance_open-Inv now r v) _))
