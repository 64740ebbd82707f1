-- ===== src/Rooms/Transfer/Adopting.antt =====
-- The target takes a room over (`#adoptRoom` of server-game/src/redis/command-consumer.ts).
use sw_itch_remake.Base.{
  ℕ, ◌<◌, ◌≡◌, refl, sym, subst, inl, inr, Bool, true, false, ◌||◌, ◌==◌, ==_iff, arith, if_both,
  Bool-cases,
}
use sw_itch_remake.Rooms.Transfer.{
  committed, Answer, done, failed_before, failed_after, Phase, serving, opening, sending, settling,
  closing, moved, Progress, reading, claiming, doubting, waiting, Target, absent, staged, live,
  System, put_key, is_pending, is_committed, took_effect, delivered, deliver, looked, claimed,
  looked_again, adoption_step, adopt,
}
use sw_itch_remake.Rooms.Transfer.Invariant.{awaits, has_moved, holds, PhaseFits, TargetFits, Inv}

-- The target changes.
pub retarget-Inv :
    (s : System) (target : Target)
    → TargetFits target s.keys s.sent
    → ((t : ℕ) → is_committed (s.keys t) ≡ true → holds target t ≡ true)
    → Inv s
    → Inv (record s { target = target })
retarget-Inv s target fits keeps v = record {
  phase_fits = v.phase_fits;
  target_fits = fits;
  fresh = v.fresh;
  open_transfer = v.open_transfer;
  known = λ t h. ((v.known t h).0, keeps t h);
}

pub deliver-Inv : (t : ℕ) (accepts : Bool) (s : System) → Inv s → Inv (deliver t accepts s)
unfolding deliver
deliver-Inv t accepts s v =
    if_both Inv (s.sent t) _ _ (λ e. retarget-Inv s _ (fits e s.target v.target_fits) keeps v)
      (λ e. v)
  where
    fits :
        s.sent t ≡ true
        → (target : Target) → TargetFits target s.keys s.sent
        → TargetFits (delivered t accepts target) s.keys s.sent
    fits e absent h =
        if_both (λ x. TargetFits x s.keys s.sent) accepts (staged t reading) absent (λ a. e)
          (λ a. tt)
    fits e (staged u waiting) h =
        if_both (λ x. TargetFits x s.keys s.sent) (u == t) (staged t reading) (staged u waiting)
          (λ a. e) (λ a. h)
    fits e (staged u reading) h = h
    fits e (staged u claiming) h = h
    fits e (staged u doubting) h = h
    fits e (live u) h = h

    still :
        (target : Target) (u : ℕ)
        → holds target u ≡ true
        → holds (delivered t accepts target) u ≡ true
    still absent u h = cc
    still (staged w waiting) u h = ground arith
    still (staged w reading) u h = h
    still (staged w claiming) u h = h
    still (staged w doubting) u h = h
    still (live w) u h = h

    keeps : (u : ℕ) → is_committed (s.keys u) ≡ true → holds (delivered t accepts s.target) u ≡ true
    keeps u h = still s.target u (v.known u h).1

-- The claim of a room whose transfer is still open.
pub committed_key-Inv :
    (s : System) (t : ℕ) (target : Target)
    → s.sent t ≡ true
    → is_pending (s.keys t) ≡ true
    → TargetFits target (put_key t committed s.keys) s.sent
    → ((u : ℕ) → holds s.target u ≡ true → holds target u ≡ true)
    → holds target t ≡ true
    → Inv s
    → Inv (record s { keys = put_key t committed s.keys; target = target })
committed_key-Inv s t target sent' pends fits keeps there v =
    let waits = v.open_transfer t sent' pends in
    record {
      phase_fits = phases s.phase waits v.phase_fits;
      target_fits = fits;
      fresh = λ u h. ground (arith, v.fresh u h, low s.phase waits v.phase_fits);
      open_transfer = λ u a b. ground (arith, v.open_transfer u a);
      known = λ u h. elim (Bool-cases (u == t)) [
        | inl e ↦
            let same = (==_iff u t).0 e in
            subst
              (λ w. ((awaits s.phase w || has_moved s.phase w) ≡ true) × (holds target w ≡ true))
              (sym same) (rw waits (refl, there))
        | inr e ↦ let old = v.known u (ground arith) in (old.0, keeps u old.1)
      ];
    }
  where
    phases :
        (p : Phase)
        → awaits p t ≡ true
        → PhaseFits p s.room s.next_transfer s.keys s.sent
        → PhaseFits p s.room s.next_transfer (put_key t committed s.keys) s.sent
    phases serving w h = cc
    phases (opening u) w h = cc
    phases (sending u) w h = cc
    phases (settling u) w h = (h.0, h.1, ground (arith, h.2))
    phases (closing u) w h = (h.0, h.1, ground (arith, h.2))
    phases (moved u) w h = cc

    low :
        (p : Phase)
        → awaits p t ≡ true
        → PhaseFits p s.room s.next_transfer s.keys s.sent
        → t < s.next_transfer
    low serving w h = cc
    low (opening u) w h = cc
    low (sending u) w h = cc
    low (settling u) w h = ground (arith, h)
    low (closing u) w h = ground (arith, h)
    low (moved u) w h = cc

module _ (s : System) (t : ℕ) (v : Inv s) where
  restaged-Inv :
      (from to : Progress) → s.target ≡ staged t from → Inv (record s { target = staged t to })
  restaged-Inv from to here =
      retarget-Inv s (staged t to) (subst (λ x. TargetFits x s.keys s.sent) here v.target_fits)
        (λ u h. subst (λ x. holds x u ≡ true) here (v.known u h).1) v

  committed-Inv :
      (from : Progress)
      → s.target ≡ staged t from
      → is_committed (s.keys t) ≡ true
      → Inv (record s { target = live t })
  committed-Inv from here e =
      retarget-Inv s (live t) e (λ u h. subst (λ x. holds x u ≡ true) here (v.known u h).1) v

  given_up-Inv :
      (from : Progress)
      → s.target ≡ staged t from
      → is_committed (s.keys t) ≡ false
      → Inv (record s { target = absent })
  given_up-Inv from here e =
      retarget-Inv s absent tt
        (λ u h. absurd (other u h (subst (λ x. holds x u ≡ true) here (v.known u h).1))) v
    where
      other : (u : ℕ) → is_committed (s.keys u) ≡ true → (t == u) ≡ true → ⊥
      other u h same = cc (subst (λ w. is_committed (s.keys w) ≡ false) ((==_iff t u).0 same) e)

  claimed_key-Inv :
      (after : Target)
      → s.target ≡ staged t claiming
      → (TargetFits after (put_key t committed s.keys) s.sent)
      → ((u : ℕ) → (t == u) ≡ true → holds after u ≡ true)
      → (is_pending (s.keys t) ≡ true)
      → Inv (record s { keys = put_key t committed s.keys; target = after })
  claimed_key-Inv after here fits keeps pends =
      committed_key-Inv s t after (subst (λ x. TargetFits x s.keys s.sent) here v.target_fits) pends
        fits (λ u h. keeps u (subst (λ x. holds x u ≡ true) here h)) (keeps t (ground arith)) v

pub claimed-Inv :
    (answer : Answer) (owned : Bool) (s : System) (t : ℕ)
    → s.target ≡ staged t claiming
    → Inv s
    → Inv (claimed answer owned t s)
claimed-Inv failed_before owned s t here v = restaged-Inv s t v claiming doubting here
claimed-Inv done false s t here v = restaged-Inv s t v claiming doubting here
claimed-Inv failed_after false s t here v = restaged-Inv s t v claiming doubting here
claimed-Inv done true s t here v = elim (Bool-cases (is_pending (s.keys t))) [
  | inl e ↦ rw e (claimed_key-Inv s t v (live t) here (ground arith) (λ u h. h) e)
  | inr e ↦ rw e (restaged-Inv s t v claiming doubting here)
]
claimed-Inv failed_after true s t here v = elim (Bool-cases (is_pending (s.keys t))) [
  | inl e ↦ rw e (
      claimed_key-Inv s t v (staged t doubting) here
        (subst (λ x. TargetFits x s.keys s.sent) here v.target_fits) (λ u h. h) e)
  | inr e ↦ rw e (restaged-Inv s t v claiming doubting here)
]

pub adopt-Inv : (answer : Answer) (owned : Bool) (s : System) → Inv s → Inv (adopt answer owned s)
unfolding adopt
adopt-Inv answer owned s v = go s.target refl
  where
    look :
        (b : Bool) (t : ℕ) → s.target ≡ staged t reading → Inv (record s { target = looked b t s })
    look false t here = restaged-Inv s t v reading doubting here
    look true t here =
        if_both (λ x. Inv (record s { target = x })) (is_committed (s.keys t)) (live t)
          (staged t claiming) (committed-Inv s t v reading here)
          (λ e. restaged-Inv s t v reading claiming here)

    again :
        (b : Bool) (t : ℕ)
        → s.target ≡ staged t doubting
        → Inv (record s { target = looked_again b t s })
    again false t here = restaged-Inv s t v doubting waiting here
    again true t here =
        if_both (λ x. Inv (record s { target = x })) (is_committed (s.keys t)) (live t) absent
          (committed-Inv s t v doubting here) (given_up-Inv s t v doubting here)

    go : (target : Target) → s.target ≡ target → Inv (adoption_step answer owned target s)
    go absent here = v
    go (live t) here = v
    go (staged t waiting) here = v
    go (staged t reading) here = look (took_effect answer) t here
    go (staged t claiming) here = claimed-Inv answer owned s t here v
    go (staged t doubting) here = again (took_effect answer) t here
