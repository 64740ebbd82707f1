-- ===== src/Rooms/StartLock/Laws.antt =====
-- How long `StartLock` can hold up a game: joins cannot lock it for ever, and no call locks for longer
-- than one lock.
use mathlib.Core.List.{append-nil, append_assoc}
use native.Mathlib.Nat.{le_refl}
use sw_itch_remake.Base.{
  ℕ, ◌+◌, ◌-◌, ◌≤◌, max, ◌≡◌, refl, List, [], ◌∷◌, ◌++◌, arith, leb, if◌then◌else◌,
}
use sw_itch_remake.Rooms.StartLock.{
  LockGrant, StartLock, new, prune, used, apply_join, apply_map_change, remaining_ms, Call, joins,
  changes_map, step, granted,
}

-- The delays granted less than a window before the time.
unfoldable pub recent : ℕ → ℕ → List LockGrant → ℕ
recent window now [] = 0
recent window now (g ∷ gs) =
    (if leb window (now - g.at) then 0 else g.duration_ms) + recent window now gs

recent-append :
    (window now : ℕ) (xs ys : List LockGrant)
    → recent window now (xs ++ ys) ≡ recent window now xs + recent window now ys
unfolding recent
recent-append window now [] ys = omega arith
recent-append window now (x ∷ xs) ys = omega (arith, recent-append window now xs ys)

recent-prune :
    (window now later : ℕ) (gs : List LockGrant)
    → now ≤ later
    → recent window later (prune window now gs) ≡ recent window later gs
unfolding recent prune
recent-prune window now later [] h = refl
recent-prune window now later (g ∷ gs) h = ground (arith, recent-prune window now later gs h)

recent-le-used : (window now : ℕ) (gs : List LockGrant) → recent window now gs ≤ used gs
unfolding recent used
recent-le-used window now [] = omega arith
recent-le-used window now (g ∷ gs) = ground (arith, recent-le-used window now gs)

used-append : (xs ys : List LockGrant) → used (xs ++ ys) ≡ used xs + used ys
unfolding used
used-append [] ys = omega arith
used-append (x ∷ xs) ys = omega (arith, used-append xs ys)

used-prune : (window now : ℕ) (gs : List LockGrant) → used (prune window now gs) ≤ used gs
unfolding used prune
used-prune window now [] = omega arith
used-prune window now (g ∷ gs) = ground (arith, used-prune window now gs)

-- The lock and all that it has granted, after calls at times up to `now`: `history` is not kept by the
-- program.
pub record Inv (s : StartLock) (history : List LockGrant) (now : ℕ) : Type 0 where
  pub within : used s.join_grants ≤ s.join_budget_ms
  pub recorded :
      (later : ℕ)
      → now ≤ later
      → recent s.join_budget_window_ms later history
        ≡ recent s.join_budget_window_ms later s.join_grants
  pub soon : s.unlocks_at ≤ now + max s.join_lock_ms s.map_lock_ms

used_one : (g : LockGrant) → used (g ∷ []) ≡ g.duration_ms
unfolding used
used_one g = omega arith

recent_none : (window now : ℕ) (g : LockGrant) → g.duration_ms ≡ 0 → recent window now (g ∷ []) ≡ 0
unfolding recent
recent_none window now g h = ground arith

-- The entry that a join leaves, in the log and in the lock.
abbrev entry : StartLock → ℕ → LockGrant
entry s now = record { at = now; duration_ms = (apply_join now s).1 }

module _ (s : StartLock) (history : List LockGrant) (before now : ℕ) (h : before ≤ now) where
  abbrev kept : List LockGrant
  kept = prune s.join_budget_window_ms now s.join_grants

  apply_join-Inv : Inv s history before → Inv (apply_join now s).0 (history ++ entry s now ∷ []) now
  unfolding apply_join
  apply_join-Inv v = record {
    within = ground (
      arith,
      used-append kept (entry s now ∷ []),
      used-prune s.join_budget_window_ms now s.join_grants,
      used_one (entry s now),
    );
    recorded = λ later le. ground (
      arith,
      recent-append s.join_budget_window_ms later history (entry s now ∷ []),
      recent-append s.join_budget_window_ms later kept (entry s now ∷ []),
      recent-prune s.join_budget_window_ms now later s.join_grants le,
      v.recorded later,
      recent_none s.join_budget_window_ms later (entry s now),
    );
    soon = ground arith;
  }

  apply_map_change-Inv : Inv s history before → Inv (apply_map_change now s) history now
  unfolding apply_map_change
  apply_map_change-Inv v = record {
    within = v.within;
    recorded = λ later le. v.recorded later (omega arith);
    soon = ground arith;
  }

-- Calls in order of time, and what each of them granted.
unfoldable pub run : StartLock → List (ℕ × Call) → StartLock
run s [] = s
run s (c ∷ cs) = run (step s c) cs

unfoldable pub log : StartLock → List (ℕ × Call) → List LockGrant
log s [] = []
log s (c ∷ cs) = record { at = c.0; duration_ms = granted s c } ∷ log (step s c) cs

abbrev pub Ordered : ℕ → List (ℕ × Call) → Type 0
Ordered now [] = Unit {0}
Ordered now (c ∷ cs) = (now ≤ c.0) × Ordered c.0 cs

abbrev pub last_time : ℕ → List (ℕ × Call) → ℕ
last_time now [] = now
last_time now (c ∷ cs) = last_time c.0 cs

recorded-silent :
    (s : StartLock) (history : List LockGrant) (now : ℕ) (g : LockGrant)
    → g.duration_ms ≡ 0
    → Inv s history now
    → Inv s (history ++ g ∷ []) now
recorded-silent s history now g z v = record {
  within = v.within;
  recorded = λ later le. omega (
    arith,
    recent-append s.join_budget_window_ms later history (g ∷ []),
    recent_none s.join_budget_window_ms later g z,
    v.recorded later le,
  );
  soon = v.soon;
}

abbrev silent : ℕ → LockGrant
silent at = record { at = at; duration_ms = 0 }

step-settings :
    (s : StartLock) (c : ℕ × Call)
    → ((step s c).join_budget_ms ≡ s.join_budget_ms)
      × ((step s c).join_budget_window_ms ≡ s.join_budget_window_ms)
      × ((step s c).join_lock_ms ≡ s.join_lock_ms)
      × ((step s c).map_lock_ms ≡ s.map_lock_ms)
unfolding step apply_join apply_map_change
step-settings s (now, joins) = ground arith
step-settings s (now, changes_map) = ground arith

settings :
    (s : StartLock) (cs : List (ℕ × Call))
    → ((run s cs).join_budget_ms ≡ s.join_budget_ms)
      × ((run s cs).join_budget_window_ms ≡ s.join_budget_window_ms)
      × ((run s cs).join_lock_ms ≡ s.join_lock_ms)
      × ((run s cs).map_lock_ms ≡ s.map_lock_ms)
unfolding run
settings s [] = (refl, refl, refl, refl)
settings s (c ∷ cs) = ground (arith, settings (step s c) cs, step-settings s c)

run_from-Inv :
    (s : StartLock) (history : List LockGrant) (now : ℕ) (cs : List (ℕ × Call))
    → Ordered now cs
    → Inv s history now
    → Inv (run s cs) (history ++ log s cs) (last_time now cs)
unfolding run log step granted
run_from-Inv s history now [] o v = rw append-nil v
run_from-Inv s history now ((at, joins) ∷ cs) o v = rw (← append_assoc history (entry s at ∷ [])) (
    run_from-Inv (apply_join at s).0 (history ++ entry s at ∷ []) at cs o.1
      (apply_join-Inv s history now at o.0 v))
run_from-Inv s history now ((at, changes_map) ∷ cs) o v =
    rw (← append_assoc history (silent at ∷ [])) (
      run_from-Inv (apply_map_change at s) (history ++ silent at ∷ []) at cs o.1 (
        recorded-silent (apply_map_change at s) history at (silent at) refl
          (apply_map_change-Inv s history now at o.0 v)))

new-Inv : (j b w m : ℕ) → Inv (new j b w m) [] 0
unfolding new used
new-Inv j b w m = record { within = omega arith; recorded = λ later le. refl; soon = omega arith }

-- The rolling budget: after any calls in order of time, the delays that were granted to joins within the
-- last window add up to the budget at most, however many people joined.
pub budget_kept :
    (j b w m : ℕ) (cs : List (ℕ × Call))
    → Ordered 0 cs
    → recent w (last_time 0 cs) (log (new j b w m) cs) ≤ b
unfolding new
budget_kept j b w m cs o =
    let last = last_time 0 cs in
    let v = run_from-Inv (new j b w m) [] 0 cs o (new-Inv j b w m) in
    let window = (settings (new j b w m) cs).1 in
    let same : recent w last (log (new j b w m) cs)
        ≡ recent w last (run (new j b w m) cs).join_grants =
      rw window at (v.recorded last (le_refl last)) in
    omega (
      arith,
      v.within,
      same,
      recent-le-used w last (run (new j b w m) cs).join_grants,
      settings (new j b w m) cs,
    )

-- After any calls in order of time, a game is held up, from the last call on, for no longer than the longer
-- of the two locks.
pub remaining_bounded :
    (j b w m : ℕ) (cs : List (ℕ × Call))
    → Ordered 0 cs
    → remaining_ms (last_time 0 cs) (run (new j b w m) cs) ≤ max j m
unfolding remaining_ms new
remaining_bounded j b w m cs o =
    let v = run_from-Inv (new j b w m) [] 0 cs o (new-Inv j b w m) in
    omega (arith, v.soon, settings (new j b w m) cs)
