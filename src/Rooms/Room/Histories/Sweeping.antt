-- ===== src/Rooms/Room/Histories/Sweeping.antt =====
-- Expired seats go (room.ts): the phase of a room stays, unless everybody has gone.
use sw_itch_remake.Base.{
  ℕ, ◌≡◌, refl, ◌∙◌, ◌⊎◌, String, Bool, true, false, ◌&&◌, not, none, List, [], ◌∷◌, ◌==◌, ==_iff,
  arith, inl, inr, is_some, option_both, if_both, length,
}
use sw_itch_remake.Base.Maps.{get}
use sw_itch_remake.Types.{ActorId, ActorId-discrete, closed}
use sw_itch_remake.Rooms.StateMachine.{is_same}
use sw_itch_remake.Rooms.Roster.{LobbyMember, Removed, size, host_id, remove, clear_holds}
use sw_itch_remake.Rooms.Room.State.{
  Effect, Message, Room, emit, state_of, with_roster, go_to, member_of,
}
use sw_itch_remake.Rooms.Room.Broadcast.{broadcast, broadcast_lobby_state}
use sw_itch_remake.Rooms.Room.Closing.{
  close, announce_host, announced, after_removal, notify, remove_member,
}
use sw_itch_remake.Rooms.Room.Advance.{
  admission_over, grace_over, admission_cleared, expire_member, expire_user, expire_users,
}

-- The phase and what it waits for are as before.
abbrev pub Steady : Room → Room → Type 0
Steady r x =
    (x.machine ≡ r.machine)
    × (x.countdown_ends_at ≡ r.countdown_ends_at)
    × (x.start_snapshot ≡ r.start_snapshot)

-- Or nobody is left.
abbrev pub Goes : Room → Room → Type 0
Goes r x = Steady r x ⊎ (size x.roster ≡ 0)

pub close-size : (now : ℕ) (r : Room) → size (close now r).roster ≡ size r.roster
unfolding close emit with_roster go_to clear_holds
close-size now r =
    if_both (λ (x : Room). size x.roster ≡ size r.roster) (is_same (state_of r) closed) _ _
      (λ e. refl) (λ e. refl)

pub emit-Steady : (r x : Room) (es : List Effect) → Steady r x → Steady r (emit es x)
unfolding emit
emit-Steady r x es h = h

pub broadcast-Steady : (r x : Room) (m : Message) → Steady r x → Steady r (broadcast m x)
unfolding broadcast emit
broadcast-Steady r x m h = h

pub told-Steady : (r x : Room) (now : ℕ) → Steady r x → Steady r (broadcast_lobby_state now x)
unfolding broadcast_lobby_state emit
told-Steady r x now h = h

pub announced-Steady :
    (gone : Removed) (reason : String) (r x : Room)
    → Steady r x
    → Steady r (announced gone reason x)
unfolding announced emit broadcast
announced-Steady gone reason r x h = hosts gone.host_changed _ h
  where
    hosts : (b : Bool) (y : Room) → Steady r y → Steady r (announce_host b y)
    hosts false y k = k
    hosts true y k = option_both (Steady r) (host_id y.roster) _ _ (λ e. k) (λ host e. k)

pub after_removal-Goes :
    (now : ℕ) (gone : Removed) (reason : String) (r x : Room)
    → Steady r x
    → Goes r (after_removal now gone reason x)
unfolding after_removal
after_removal-Goes now gone reason r x h =
    let told = announced-Steady gone reason r x h in
    if_both (Goes r) (size (announced gone reason x).roster == 0) _ _
      (λ empty. inr (close-size now _ ∙ (==_iff _ 0).0 empty))
      (λ people. inl (told-Steady r (announced gone reason x) now told))

pub notify-Steady :
    (b : Bool) (player_id : ℕ) (reason : String) (r x : Room)
    → Steady r x
    → Steady r (notify b player_id reason x)
notify-Steady false player_id reason r x h = h
notify-Steady true player_id reason r x h = emit-Steady r x _ h

pub remove_member-Goes :
    (now : ℕ) (u : ActorId) (reason : String) (b : Bool) (r x : Room)
    → Steady r x
    → Goes r (remove_member now u reason b x).0
unfolding remove_member with_roster
remove_member-Goes now u reason b r x h =
    option_both (λ (y : Room × Bool). Goes r y.0) (remove u x.roster).1 _ _ (λ e. inl h)
      (λ gone e.
        after_removal-Goes now gone reason r _ (notify-Steady b gone.member.player_id reason r _ h))

pub expire_member-Goes :
    (now : ℕ) (m : LobbyMember) (r x : Room) → Steady r x → Goes r (expire_member now m x)
unfolding expire_member with_roster
expire_member-Goes now m r x h =
    let cleared : Steady r (admission_cleared now m x) =
      if_both (Steady r) (admission_over now m) _ _ (λ e. h) (λ e. h) in
    if_both (Goes r) (admission_over now m && not (is_some m.reconnect_until)) _ _
      (λ e. remove_member-Goes now m.user_id _ false r _ cleared)
      (λ e.
        if_both (Goes r) (grace_over now m) _ _
          (λ over. remove_member-Goes now m.user_id _ false r _ cleared) (λ waits. inl cleared))

pub nobody :
    (u : ActorId) (ms : List (ActorId × LobbyMember))
    → length ms ≡ 0
    → get ActorId-discrete u ms ≡ none
unfolding get
nobody u [] e = refl
nobody u (m ∷ ms) e = absurd (omega (arith, e))

pub expire_user-Goes :
    (now : ℕ) (u : ActorId) (r x : Room) → Goes r x → Goes r (expire_user now u x)
unfolding expire_user
expire_user-Goes now u r x (inl h) =
    option_both (Goes r) (member_of u x) _ _ (λ e. inl h) (λ m e. expire_member-Goes now m r x h)
expire_user-Goes now u r x (inr e) = rw (nobody u x.roster.members e, expire_user) (inr e)

pub expire_users-Goes :
    (now : ℕ) (us : List ActorId) (r x : Room) → Goes r x → Goes r (expire_users now us x)
unfolding expire_users
expire_users-Goes now [] r x h = h
expire_users-Goes now (u ∷ us) r x h =
    expire_users-Goes now us r (expire_user now u x) (expire_user-Goes now u r x h)
