-- ===== src/Rooms/Transfer/Settling.antt =====
-- The source finds out what has become of a move (`settle` of server-game/src/rooms/hand-off.ts).
use sw_itch_remake.Base.{
  ℕ, ◌≡◌, refl, sym, subst, ◌∙◌, inl, inr, Bool, true, false, ◌||◌, Option, none, some, arith,
  is_some, if_both, any, Bool-cases,
}
use sw_itch_remake.Types.{RoomState, allocating, countdown, playing, post_game, closed}
use sw_itch_remake.Rooms.StateMachine.{RoomStateMachine, transition, transitions, is_same}
use sw_itch_remake.Rooms.Room.State.{Room, go_to, state_of}
use sw_itch_remake.Rooms.Room.HandOff.{release_after_hand_off}
use sw_itch_remake.Rooms.Transfer.{
  Transfer, pending, cancelled, committed, Answer, done, failed_before, failed_after, Phase,
  serving, opening, sending, settling, closing, moved, Target, absent, staged, live, System,
  is_pending, is_committed, replace_pending, cancellation, try_cancel, outcome, read_outcome,
  settle,
}
use sw_itch_remake.Rooms.Transfer.Invariant.{
  awaits, has_moved, PhaseFits, TargetFits, Inv, cancelled_room-Inv, fits_at,
}

-- What a cancellation does to the keys.
pub cancel-committed :
    (t u : ℕ) (keys : ℕ → Option Transfer)
    → is_committed (replace_pending t cancelled keys u) ≡ is_committed (keys u)
cancel-committed t u keys = elim (Bool-cases (is_pending (keys t))) [
  | inl e ↦ rw e (ground arith)
  | inr e ↦ rw e refl
]

pub cancel-pending :
    (t u : ℕ) (keys : ℕ → Option Transfer)
    → is_pending (replace_pending t cancelled keys u) ≡ true
    → is_pending (keys u) ≡ true
cancel-pending t u keys h = ground arith

pub cancel-none :
    (t u : ℕ) (keys : ℕ → Option Transfer)
    → keys u ≡ none
    → replace_pending t cancelled keys u ≡ none
cancel-none t u keys h = ground arith

pub cancel-set :
    (t u : ℕ) (keys : ℕ → Option Transfer)
    → is_some (keys u) ≡ true
    → is_some (replace_pending t cancelled keys u) ≡ true
cancel-set t u keys h = ground arith

pub cancelled_key-Inv :
    (s : System) (t : ℕ) → Inv s → Inv (record s { keys = replace_pending t cancelled s.keys })
cancelled_key-Inv s t v = record {
  phase_fits = phases s.phase v.phase_fits;
  target_fits = targets s.target v.target_fits;
  fresh = λ u h. (cancel-none t u s.keys (v.fresh u h).0, (v.fresh u h).1);
  open_transfer = λ u a b. v.open_transfer u a (cancel-pending t u s.keys b);
  known = λ u h. v.known u (sym (cancel-committed t u s.keys) ∙ h);
}
  where
    phases :
        (p : Phase)
        → PhaseFits p s.room s.next_transfer s.keys s.sent
        → PhaseFits p s.room s.next_transfer (replace_pending t cancelled s.keys) s.sent
    phases serving h = tt
    phases (opening u) h = h
    phases (sending u) h = (h.0, h.1, cancel-committed t u s.keys ∙ h.2, cancel-set t u s.keys h.3)
    phases (settling u) h = (h.0, h.1, cancel-set t u s.keys h.2)
    phases (closing u) h = (h.0, h.1, cancel-set t u s.keys h.2)
    phases (moved u) h = (h.0, cancel-committed t u s.keys ∙ h.1)

    targets :
        (target : Target)
        → TargetFits target s.keys s.sent
        → TargetFits target (replace_pending t cancelled s.keys) s.sent
    targets absent h = tt
    targets (staged u progress) h = h
    targets (live u) h = cancel-committed t u s.keys ∙ h

pub closing-Inv :
    (s : System) (t : ℕ) → s.phase ≡ settling t → Inv s → Inv (record s { phase = closing t })
closing-Inv s t here v = record {
  phase_fits = fits_at s (settling t) here v;
  target_fits = v.target_fits;
  fresh = v.fresh;
  open_transfer = λ u a b. subst (λ p. awaits p u ≡ true) here (v.open_transfer u a b);
  known = λ u h.
      (subst (λ p. (awaits p u || has_moved p u) ≡ true) here (v.known u h).0, (v.known u h).1);
}

pub unsettled-Inv :
    (s : System) (t : ℕ) → s.phase ≡ closing t → Inv s → Inv (record s { phase = settling t })
unsettled-Inv s t here v = record {
  phase_fits = fits_at s (closing t) here v;
  target_fits = v.target_fits;
  fresh = v.fresh;
  open_transfer = λ u a b. subst (λ p. awaits p u ≡ true) here (v.open_transfer u a b);
  known = λ u h.
      (subst (λ p. (awaits p u || has_moved p u) ≡ true) here (v.known u h).0, (v.known u h).1);
}

pub cancellation-Inv :
    (answer : Answer) (s : System) (t : ℕ)
    → s.phase ≡ settling t
    → Inv s
    → Inv (cancellation answer t s)
cancellation-Inv done s t here v =
    closing-Inv (record s { keys = replace_pending t cancelled s.keys }) t here
      (cancelled_key-Inv s t v)
cancellation-Inv failed_before s t here v = v
cancellation-Inv failed_after s t here v = cancelled_key-Inv s t v

pub try_cancel-Inv : (answer : Answer) (s : System) → Inv s → Inv (try_cancel answer s)
unfolding try_cancel
try_cancel-Inv answer s v = go s.phase refl
  where
    go : (p : Phase) → s.phase ≡ p → Inv (elim p [ settling t ↦ cancellation answer t s | _ ↦ s ])
    go serving here = v
    go (opening t) here = v
    go (sending t) here = v
    go (settling t) here = cancellation-Inv answer s t here v
    go (closing t) here = v
    go (moved t) here = v

pub transition-closed :
    (m : RoomStateMachine) (now : ℕ) → (transition m closed now).0.state ≡ closed
unfolding transition transitions
transition-closed m now =
    if_both (λ (x : RoomStateMachine × Bool). x.0.state ≡ closed)
      (any (is_same closed) (transitions m.state)) _ _ (λ e. refl) (stuck m.state)
  where
    stuck : (st : RoomState) → any (is_same closed) (transitions st) ≡ false → st ≡ closed
    stuck allocating e = cc
    stuck RoomState.waiting e = cc
    stuck countdown e = cc
    stuck playing e = cc
    stuck post_game e = cc
    stuck closed e = refl

pub release_after_hand_off-closed :
    (now : ℕ) (r : Room) → state_of (release_after_hand_off now r) ≡ closed
unfolding release_after_hand_off go_to
release_after_hand_off-closed now r = transition-closed _ now

-- The key has been read.
pub outcome-Inv :
    (now t : ℕ) (o : Option Transfer) (s : System)
    → s.phase ≡ closing t
    → s.keys t ≡ o
    → Inv s
    → Inv (outcome now t o s)
outcome-Inv now t none s here read v = unsettled-Inv s t here v
outcome-Inv now t (some pending) s here read v = unsettled-Inv s t here v
outcome-Inv now t (some cancelled) s here read v =
    cancelled_room-Inv s (λ u a b. ground arith) (λ u. none_left u) v
  where
    none_left : (u : ℕ) → is_committed (s.keys u) ≡ false
    none_left u = elim (Bool-cases (is_committed (s.keys u))) [
      | inl e ↦ absurd (ground (arith, (v.known u e).0))
      | inr e ↦ e
    ]
outcome-Inv now t (some committed) s here read v = record {
  phase_fits = (release_after_hand_off-closed now s.room, rw read refl);
  target_fits = v.target_fits;
  fresh = v.fresh;
  open_transfer = λ u a b. absurd (ground (arith, v.open_transfer u a b));
  known = λ u h. ground (arith, v.known u h);
}

pub settle-Inv : (now : ℕ) (answered : Bool) (s : System) → Inv s → Inv (settle now answered s)
unfolding settle
settle-Inv now answered s v = go s.phase refl
  where
    read : (b : Bool) (t : ℕ) → s.phase ≡ closing t → Inv (read_outcome now b t s)
    read true t here = outcome-Inv now t (s.keys t) s here refl v
    read false t here = unsettled-Inv s t here v

    go :
        (p : Phase)
        → s.phase ≡ p
        → Inv (elim p [ closing t ↦ read_outcome now answered t s | _ ↦ s ])
    go serving here = v
    go (opening t) here = v
    go (sending t) here = v
    go (settling t) here = v
    go (closing t) here = read answered t here
    go (moved t) here = v
