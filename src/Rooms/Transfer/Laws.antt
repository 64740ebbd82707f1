-- ===== src/Rooms/Transfer/Laws.antt =====
-- The move of a room between two servers (server-game/src/rooms/hand-off.ts): whatever fails and however the steps
-- interleave, one server has the room.
use sw_itch_remake.Base.{
  ℕ, ◌≡◌, refl, subst, ◌⊎◌, inl, inr, Bool, true, false, ◌||◌, Option, none, some, List, [], ◌∷◌,
  arith, is_some,
}
use sw_itch_remake.Rooms.Room.State.{Room}
use sw_itch_remake.Rooms.Room.HandOff.{cancel_hand_off}
use sw_itch_remake.Rooms.Transfer.{
  Transfer, pending, cancelled, committed, done, Phase, serving, opening, sending, settling,
  closing, moved, live, System, is_pending, cancellation, try_cancel, outcome, settle, Action,
  freezes, opens, sends, cancels, settles, delivers, adopts, act, run, start,
}
use sw_itch_remake.Rooms.Transfer.Invariant.{
  IsIdle, awaits, has_moved, holds, PhaseFits, TargetFits, Inv, start-Inv, fits_at,
}
use sw_itch_remake.Rooms.Transfer.Starting.{freeze-Inv, open_key-Inv, send_command-Inv}
use sw_itch_remake.Rooms.Transfer.Settling.{cancel-set, try_cancel-Inv, settle-Inv}
use sw_itch_remake.Rooms.Transfer.Adopting.{deliver-Inv, adopt-Inv}

pub act-Inv : (s : System) (a : Action) → Inv s → Inv (act s a)
unfolding act
act-Inv s freezes v = freeze-Inv s v
act-Inv s (opens answer) v = open_key-Inv answer s v
act-Inv s (sends answer) v = send_command-Inv answer s v
act-Inv s (cancels answer) v = try_cancel-Inv answer s v
act-Inv s (settles now answered) v = settle-Inv now answered s v
act-Inv s (delivers t accepts) v = deliver-Inv t accepts s v
act-Inv s (adopts answer owned) v = adopt-Inv answer owned s v

pub run-Inv : (s : System) (actions : List Action) → Inv s → Inv (run s actions)
unfolding run
run-Inv s [] v = v
run-Inv s (a ∷ actions) v = run-Inv (act s a) actions (act-Inv s a v)

pub idle :
    (t : ℕ) (p : Phase) (r : Room) (next : ℕ) (keys : ℕ → Option Transfer) (sent : ℕ → Bool)
    → PhaseFits p r next keys sent
    → (awaits p t || has_moved p t) ≡ true
    → IsIdle r
idle t serving r next keys sent h k = cc
idle t (opening u) r next keys sent h k = cc
idle t (sending u) r next keys sent h k = cc
idle t (settling u) r next keys sent h k = inl h.0
idle t (closing u) r next keys sent h k = inl h.0
idle t (moved u) r next keys sent h k = inr h.0

-- Whatever fails and however the steps interleave: while the server that was asked to take the room has it live, the
-- room of the source is frozen or closed; and once the source has let go of it, the other server has it, live or
-- staged for that very transfer.
pub run-one_owner :
    (r : Room) (actions : List Action) (t : ℕ)
    → ((run (start r) actions).target ≡ live t → IsIdle (run (start r) actions).room)
      × ((run (start r) actions).phase ≡ moved t → holds (run (start r) actions).target t ≡ true)
run-one_owner r actions t =
    let v = run-Inv (start r) actions (start-Inv r) in
    let s = run (start r) actions in
    (
      λ here.
          let gone = subst (λ x. TargetFits x s.keys s.sent) here v.target_fits in
          idle t s.phase s.room s.next_transfer s.keys s.sent v.phase_fits (v.known t gone).0,
      λ here. (v.known t (fits_at s (moved t) here v).1).1,
    )

-- What a settled move looks like at the source: the room serves again, or it has gone.
abbrev pub IsResolved : ℕ → System → Type 0
IsResolved t s = ((s.phase ≡ serving) × (s.room.handing_off ≡ false)) ⊎ (s.phase ≡ moved t)

pub outcome-IsResolved :
    (now t : ℕ) (o : Option Transfer) (s : System)
    → is_some o ≡ true
    → is_pending o ≡ false
    → IsResolved t (outcome now t o s)
unfolding cancel_hand_off
outcome-IsResolved now t none s a b = cc
outcome-IsResolved now t (some pending) s a b = cc
outcome-IsResolved now t (some cancelled) s a b = inl (refl, refl)
outcome-IsResolved now t (some committed) s a b = inr refl

pub settled-IsResolved :
    (now t : ℕ) (s : System)
    → s.phase ≡ settling t
    → is_some (s.keys t) ≡ true
    → IsResolved t (act (act s (cancels done)) (settles now true))
unfolding act settle try_cancel
settled-IsResolved now t s here set =
    rw (act, try_cancel, here)
      (outcome-IsResolved now t _ (cancellation done t s) (cancel-set t t s.keys set)
        (ground arith))

-- A move is never stuck: after any steps, a room that is frozen for a transfer whose command was sent, or may have been,
-- serves again or has gone as soon as Redis answers the two calls of `settle`.
pub run-IsResolved :
    (r : Room) (actions : List Action) (t now : ℕ)
    → (run (start r) actions).phase ≡ settling t
    → IsResolved t (act (act (run (start r) actions) (cancels done)) (settles now true))
run-IsResolved r actions t now here =
    let s = run (start r) actions in
    settled-IsResolved now t s here
      (fits_at s (settling t) here (run-Inv (start r) actions (start-Inv r))).2
