-- ===== src/Rooms/Room/Banning.antt =====
-- Who is kicked from a room (room.ts) leaves it for good.
use sw_itch_remake.Base.{
  ◌≡◌, ◌≢◌, subst, Option, none, some, List, ◌∷◌, arith, inl, inr, Option-cases,
}
use sw_itch_remake.Base.Maps.{get, get-delete}
use sw_itch_remake.Types.{ActorId, ActorId-discrete, RoomState}
use sw_itch_remake.Rooms.Roster.{LobbyMember, LobbyRoster, drop_hold, remove}
use sw_itch_remake.Rooms.Room.State.{RoomStartSnapshot}
use sw_itch_remake.Rooms.Room.Fit.{Absent, Fit, without-parts, remove-Fit, drop_hold-Fit}

-- A member who is there can be removed.
pub remove-found :
    (u : ActorId) (m : LobbyMember) (r : LobbyRoster)
    → get ActorId-discrete u r.members ≡ some m
    → (remove u r).1 ≢ none
unfolding remove
remove-found u m r found e = ground arith

module _ (st : RoomState) (s : Option RoomStartSnapshot) (kicked : List ActorId) (r : LobbyRoster)
    (h : Fit st s kicked r) where
  no_hold :
      (u : ActorId) (m : LobbyMember)
      → get ActorId-discrete u r.members ≡ some m
      → get ActorId-discrete u r.holds ≡ none
  no_hold u m found = elim (Option-cases (get ActorId-discrete u r.holds)) [
    | inl e ↦ e
    | inr (x, e) ↦ cc (h.seats.apart u x e)
  ]

  kicked-Absent :
      (u : ActorId) (m : LobbyMember)
      → get ActorId-discrete u r.members ≡ some m
      → Absent u (remove u r).0
  unfolding remove
  kicked-Absent u m found =
      let parts = without-parts st s kicked r h u in
      rw (found, remove)
        (
          rw parts.1 (no_hold u m found),
          rw parts.0 (ground (arith, get-delete ActorId-discrete u u r.members)),
        )

  -- Whoever is kicked and leaves stays away.
  pub kicked-Fit :
      (u : ActorId) (m : LobbyMember)
      → get ActorId-discrete u r.members ≡ some m
      → Fit st s (u ∷ kicked) (remove u r).0
  kicked-Fit u m found =
      let v = remove-Fit st s kicked r h u in
      record {
        seats = v.seats;
        banned = λ w b. elim (ActorId-discrete u w) [
          | yes e ↦ subst (λ x. Absent x (remove u r).0) e (kicked-Absent u m found)
          | no ne ↦ v.banned w (ground arith)
        ];
        lined = v.lined;
      }

  -- A banned user's seat on hold goes.
  pub banned-Fit :
      (u : ActorId)
      → get ActorId-discrete u r.members ≡ none
      → Fit st s (u ∷ kicked) (drop_hold u r)
  banned-Fit u absent =
      let v = drop_hold-Fit st s kicked r h u in
      record {
        seats = v.seats;
        banned = λ w b. elim (ActorId-discrete u w) [
          | yes e ↦
              subst (λ x. Absent x (drop_hold u r)) e
                (ground (arith, get-delete ActorId-discrete u u r.holds), absent)
          | no ne ↦ v.banned w (ground arith)
        ];
        lined = v.lined;
      }
