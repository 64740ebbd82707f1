-- ===== src/Rooms/Transfer/Starting.antt =====
-- The source begins to move a room (server-game/src/rooms/hand-off.ts): it freezes the room, sets the key and sends
-- the command.
use sw_itch_remake.Base.{
  ℕ, ◌≤◌, ◌<◌, ◌≡◌, refl, Bool, true, false, ◌==◌, arith, if◌then◌else◌, is_some, if_both,
}
use sw_itch_remake.Rooms.Room.State.{Room}
use sw_itch_remake.Rooms.Room.HandOff.{freeze_for_hand_off, can_hand_off}
use sw_itch_remake.Rooms.Transfer.{
  pending, Answer, done, failed_before, failed_after, Phase, serving, opening, sending, settling,
  closing, moved, Target, absent, staged, live, System, put_key, is_pending, frozen, freeze,
  cancelled_room, took_effect, opened, open_key, noted, given_out, send_command,
}
use sw_itch_remake.Rooms.Transfer.Invariant.{
  TargetFits, Inv, cancelled_room-Inv, none_committed, fits_at,
}

pub frozen-Inv :
    (s : System) (r : Room) (b : Bool)
    → s.phase ≡ serving
    → (b ≡ true → r.handing_off ≡ true)
    → Inv s
    → Inv (frozen (r, b) s)
frozen-Inv s r false here stays v = v
frozen-Inv s r true here stays v = record {
  phase_fits = (stays refl, omega arith, (v.fresh s.next_transfer (omega arith)).1);
  target_fits = v.target_fits;
  fresh = λ t h. v.fresh t (omega arith);
  open_transfer = λ t a b. absurd (ground (arith, v.open_transfer t a b));
  known = λ t h. absurd (ground (arith, v.known t h));
}

pub freeze-Inv : (s : System) → Inv s → Inv (freeze s)
unfolding freeze freeze_for_hand_off
freeze-Inv s v = go s.phase refl
  where
    go :
        (p : Phase)
        → s.phase ≡ p
        → Inv (elim p [ serving ↦ frozen (freeze_for_hand_off s.room) s | _ ↦ s ])
    go serving here =
        if_both (λ x. Inv (frozen x s)) (can_hand_off s.room) _ _
          (λ e. frozen-Inv s _ true here (λ t. refl) v) (λ e. v)
    go (opening t) here = v
    go (sending t) here = v
    go (settling t) here = v
    go (closing t) here = v
    go (moved t) here = v

-- The key of a transfer whose command has not been sent.
pub opened_key-Inv :
    (s : System) (t : ℕ)
    → s.phase ≡ opening t
    → is_some (s.keys t) ≡ false
    → Inv s
    → Inv (record s { phase = sending t; keys = put_key t pending s.keys })
opened_key-Inv s t here unset v =
    let (frozen', low, unsent) = fits_at s (opening t) here v in
    let nothing = none_committed s (λ u. rw here refl) v in
    record {
      phase_fits = (frozen', low, ground arith, ground arith);
      target_fits = kept s.target v.target_fits;
      fresh = λ u h. ground (arith, v.fresh u h);
      open_transfer = λ u a b. absurd (ground (arith, v.open_transfer u a));
      known = λ u h. absurd (ground (arith, nothing u));
    }
  where
    kept :
        (target : Target)
        → TargetFits target s.keys s.sent
        → TargetFits target (put_key t pending s.keys) s.sent
    kept absent h = tt
    kept (staged u progress) h = h
    kept (live u) h = absurd (ground (arith, none_committed s (λ w. rw here refl) v u))

-- An attempt that is given up before its command is sent.
pub abandoned-Inv : (s : System) (t : ℕ) → s.phase ≡ opening t → Inv s → Inv (cancelled_room s)
abandoned-Inv s t here v =
    cancelled_room-Inv s (λ u a b. absurd (ground arith)) (none_committed s (λ u. rw here refl) v) v

pub opened-Inv :
    (answer : Answer) (s : System) (t : ℕ) → s.phase ≡ opening t → Inv s → Inv (opened answer t s)
opened-Inv done s t here v =
    if_both Inv (is_some (s.keys t)) _ _ (λ e. abandoned-Inv s t here v)
      (λ e. opened_key-Inv s t here e v)
opened-Inv failed_before s t here v = abandoned-Inv s t here v
opened-Inv failed_after s t here v =
    if_both Inv (is_some (s.keys t)) _ _ (λ e. abandoned-Inv s t here v)
      (λ e.
        let w = opened_key-Inv s t here e v in
        let unsent = (fits_at s (opening t) here v).2 in
        record {
          phase_fits = tt;
          target_fits = w.target_fits;
          fresh = w.fresh;
          open_transfer = λ u a b. absurd (ground (arith, w.open_transfer u a b));
          known = λ u h. absurd (ground (arith, w.known u h));
        })

pub open_key-Inv : (answer : Answer) (s : System) → Inv s → Inv (open_key answer s)
unfolding open_key
open_key-Inv answer s v = go s.phase refl
  where
    go : (p : Phase) → s.phase ≡ p → Inv (elim p [ opening t ↦ opened answer t s | _ ↦ s ])
    go serving here = v
    go (opening t) here = opened-Inv answer s t here v
    go (sending t) here = v
    go (settling t) here = v
    go (closing t) here = v
    go (moved t) here = v

pub given_out-Inv :
    (answer : Answer) (s : System) (t : ℕ)
    → s.phase ≡ sending t
    → Inv s
    → Inv (given_out answer t s)
given_out-Inv answer s t here v =
    let (frozen', low, uncommitted, set) = fits_at s (sending t) here v in
    let nothing = none_committed s (λ u. rw here refl) v in
    record {
      phase_fits = (frozen', low, set);
      target_fits = kept s.target v.target_fits;
      fresh = λ u h. ((v.fresh u h).0, unsent (took_effect answer) u h);
      open_transfer = opened_only (took_effect answer);
      known = λ u h. absurd (ground (arith, nothing u));
    }
  where
    low : t < s.next_transfer
    low = (fits_at s (sending t) here v).1

    unsent :
        (b : Bool) (u : ℕ) → s.next_transfer ≤ u → (if b then noted t s.sent else s.sent) u ≡ false
    unsent false u h = (v.fresh u h).1
    unsent true u h = ground (arith, v.fresh u h, low)

    more : (b : Bool) (u : ℕ) → s.sent u ≡ true → (if b then noted t s.sent else s.sent) u ≡ true
    more false u h = h
    more true u h = ground (arith, h)

    opened_only :
        (b : Bool) (u : ℕ)
        → (if b then noted t s.sent else s.sent) u ≡ true
        → is_pending (s.keys u) ≡ true
        → (t == u) ≡ true
    opened_only false u a b = absurd (ground (arith, v.open_transfer u a b))
    opened_only true u a b = ground (arith, v.open_transfer u)

    kept :
        (target : Target)
        → TargetFits target s.keys s.sent
        → TargetFits target s.keys (if took_effect answer then noted t s.sent else s.sent)
    kept absent h = tt
    kept (staged u progress) h = more (took_effect answer) u h
    kept (live u) h = h

pub send_command-Inv : (answer : Answer) (s : System) → Inv s → Inv (send_command answer s)
unfolding send_command
send_command-Inv answer s v = go s.phase refl
  where
    go : (p : Phase) → s.phase ≡ p → Inv (elim p [ sending t ↦ given_out answer t s | _ ↦ s ])
    go serving here = v
    go (opening t) here = v
    go (sending t) here = given_out-Inv answer s t here v
    go (settling t) here = v
    go (closing t) here = v
    go (moved t) here = v
