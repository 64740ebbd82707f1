-- ===== src/Simulation/Scheduler/Laws.antt =====
-- What the loop of scheduler.ts keeps: its bound on the steps, its remainder and its set of rooms.
use sw_itch_remake.Base.{
  ℕ, zero, suc, ◌+◌, ◌≤◌, ◌≡◌, ◌∙◌, refl, subst, sym, ◌⊎◌, inl, inr, Bool, true, false, Option,
  none, some, List, [], ◌∷◌, arith, ite, String, String_discrete, length, count, Bool-cases,
}
use sw_itch_remake.Simulation.Floats.{Floats, of_ℕ}
use sw_itch_remake.Simulation.Scheduler.{
  Rooms, Scheduler, new, add_id, remove_id, add_target, remove, start, stop, step_target,
  step_targets, step_all, is_due, catch_up, elapsed, advance_since, advance, max_catchup_steps,
  step_ms, epsilon_ms, drop_if_ended,
}

-- The calls of a process on its scheduler.
pub data Call (N : Type 0) : Type 0 where
  add_call remove_call : String → Call N
  start_call : N → Call N
  stop_call : Call N
  advance_call : N → N → Call N

abbrev pub is_id : String → String → Bool
is_id id x = ite (String_discrete x id) true false

-- Each room stands once, and the statistics count them.
abbrev pub Tidy : {f : Floats} → Scheduler f → Type 0
Tidy s = ((id : String) → count (is_id id) s.targets ≤ 1) × (s.target_count ≡ length s.targets)

count-add_id_self :
    (id : String) (xs : List String) → count (is_id id) xs ≤ 1 → count (is_id id) (add_id id xs) ≤ 1
count-add_id_self id [] h = ground arith
count-add_id_self id (x ∷ xs) h = ground (arith, count-add_id_self id xs)

count-add_id_other :
    (id k : String) (xs : List String)
    → ¬ (id ≡ k)
    → count (is_id k) (add_id id xs) ≡ count (is_id k) xs
count-add_id_other id k [] n = ground (arith)
count-add_id_other id k (x ∷ xs) n = ground (arith, count-add_id_other id k xs)

count-remove_id :
    (id k : String) (xs : List String) → count (is_id k) (remove_id id xs) ≤ count (is_id k) xs
count-remove_id id k [] = omega arith
count-remove_id id k (x ∷ xs) = ground (arith, count-remove_id id k xs)

add_id-once :
    (id k : String) (xs : List String) → count (is_id k) xs ≤ 1 → count (is_id k) (add_id id xs) ≤ 1
add_id-once id k xs h = elim (String_discrete id k) [
  | yes same ↦
      subst (λ z. count (is_id z) (add_id id xs) ≤ 1) same (count-add_id_self id xs (ground arith))
  | no other ↦ omega (arith, count-add_id_other id k xs other)
]

module _ (f : Floats) where
  open f use {Num, leb, add}

  add_target-Tidy : (id : String) (s : Scheduler f) → Tidy s → Tidy (add_target f id s)
  unfolding add_target
  add_target-Tidy id s v = (λ k. add_id-once id k s.targets (v.0 k), refl)

  remove-Tidy : (id : String) (s : Scheduler f) → Tidy s → Tidy (remove f id s)
  unfolding remove
  remove-Tidy id s v = (λ k. omega (arith, v.0 k, count-remove_id id k s.targets), refl)

  -- What a round over the rooms leaves as it was: the counter, the time and what was dropped.
  abbrev Kept : Scheduler f → Scheduler f → Type 0
  Kept s t =
      (t.tick_counter ≡ s.tick_counter)
      × (t.accumulator_ms ≡ s.accumulator_ms)
      × (t.dropped_ms ≡ s.dropped_ms)

  module _ {E F : Type 0} (rooms : Rooms E F) where
    drop_if_ended-Kept :
        (id : String) (o : Option F) (s : Scheduler f) → Kept s (drop_if_ended f rooms id o s)
    unfolding remove
    drop_if_ended-Kept id none s = (refl, refl, refl)
    drop_if_ended-Kept id (some frame) s = (refl, refl, refl)

    drop_if_ended-Tidy :
        (id : String) (o : Option F) (s : Scheduler f)
        → Tidy s
        → Tidy (drop_if_ended f rooms id o s)
    drop_if_ended-Tidy id none s v = remove-Tidy id s v
    drop_if_ended-Tidy id (some frame) s v = v

    step_targets-Kept :
        (publishing : Bool) (ids : List String) (se : Scheduler f × E)
        → Kept se.0 (step_targets f rooms publishing ids se).0
    unfolding step_targets step_target
    step_targets-Kept publishing [] se = (refl, refl, refl)
    step_targets-Kept publishing (id ∷ ids) se =
        let one = drop_if_ended-Kept id (rooms.step id se.1).1 se.0 in
        let rest = step_targets-Kept publishing ids (step_target f rooms publishing id se) in
        (rest.0 ∙ one.0, rest.1 ∙ one.1, rest.2 ∙ one.2)

    step_targets-Tidy :
        (publishing : Bool) (ids : List String) (se : Scheduler f × E)
        → Tidy se.0
        → Tidy (step_targets f rooms publishing ids se).0
    unfolding step_targets step_target
    step_targets-Tidy publishing [] se v = v
    step_targets-Tidy publishing (id ∷ ids) se v =
        step_targets-Tidy publishing ids (step_target f rooms publishing id se)
          (drop_if_ended-Tidy id (rooms.step id se.1).1 se.0 v)

    -- What catching up does, with so many steps at most: how many it made, that nothing is due at the end, and
    -- that time is dropped only after the last step allowed.
    abbrev pub CaughtUp : ℕ → Scheduler f → Scheduler f → Type 0
    CaughtUp n s t =
        (s.tick_counter ≤ t.tick_counter)
        × (t.tick_counter ≤ s.tick_counter + n)
        × (is_due f t ≡ false)
        × ((t.tick_counter ≡ s.tick_counter + n) ⊎ (t.dropped_ms ≡ s.dropped_ms))

    CaughtUp-after :
        (n : ℕ) (s t u : Scheduler f)
        → t.tick_counter ≡ s.tick_counter + 1
        → t.dropped_ms ≡ s.dropped_ms
        → CaughtUp n t u
        → CaughtUp (suc n) s u
    CaughtUp-after n s t u counted kept c = (
      omega (arith, c.0),
      omega (arith, c.1),
      c.2,
      elim c.3 [ inl all ↦ inl (omega arith) | inr none' ↦ inr (none' ∙ kept) ],
    )

    step_all-Kept :
        (s : Scheduler f) (e : E)
        → Kept (record s { tick_counter = s.tick_counter + 1 }) (step_all f rooms (s, e)).0
    unfolding step_all
    step_all-Kept s e = step_targets-Kept _ s.targets (_, e)

    catch_up-CaughtUp :
        (n : ℕ) (s : Scheduler f) (e : E)
        → leb (step_ms f) (add (of_ℕ f 0) (epsilon_ms f)) ≡ false
        → CaughtUp n s (catch_up f rooms n (s, e)).0
    unfolding catch_up
    catch_up-CaughtUp zero s e h = elim (Bool-cases (is_due f s)) [
      | inl due ↦ rw due (omega arith, omega arith, h, inl (omega arith))
      | inr early ↦ rw early (omega arith, omega arith, early, inr refl)
    ]
    catch_up-CaughtUp (suc n) s e h = elim (Bool-cases (is_due f s)) [
      | inl due ↦
          let s' : Scheduler f = record s { accumulator_ms = f.sub s.accumulator_ms (step_ms f) } in
          let se = step_all f rooms (s', e) in
          rw due (
            CaughtUp-after n s se.0 (catch_up f rooms n se).0 (step_all-Kept s' e).0
              (step_all-Kept s' e).2 (catch_up-CaughtUp n se.0 se.1 h))
      | inr early ↦ rw early (omega arith, omega arith, early, inr refl)
    ]

    -- If no step is due on an empty accumulator, an advance of a started clock makes at most five steps, and no
    -- step is due after it; and unless it made five, no time is dropped.
    pub advance-CaughtUp :
        (now later last : Num) (s : Scheduler f) (e : E)
        → leb (step_ms f) (add (of_ℕ f 0) (epsilon_ms f)) ≡ false
        → s.last_now_ms ≡ some last
        → CaughtUp max_catchup_steps s (advance f rooms now later (s, e)).0
    unfolding advance advance_since
    advance-CaughtUp now later last s e h k =
        subst (λ o. CaughtUp max_catchup_steps s (advance_since f rooms o now later (s, e)).0)
          (sym k) (catch_up-CaughtUp max_catchup_steps (elapsed f now last s) e h)

    catch_up-Tidy : (n : ℕ) (s : Scheduler f) (e : E) → Tidy s → Tidy (catch_up f rooms n (s, e)).0
    unfolding catch_up step_all
    catch_up-Tidy zero s e v = elim (Bool-cases (is_due f s)) [
      | inl due ↦ rw due v
      | inr early ↦ rw early v
    ]
    catch_up-Tidy (suc n) s e v = elim (Bool-cases (is_due f s)) [
      | inl due ↦ rw due (catch_up-Tidy n _ _ (step_targets-Tidy _ s.targets (_, e) v))
      | inr early ↦ rw early v
    ]

    advance_since-Tidy :
        (o : Option Num) (now later : Num) (s : Scheduler f) (e : E)
        → Tidy s
        → Tidy (advance_since f rooms o now later (s, e)).0
    unfolding advance_since
    advance_since-Tidy none now later s e v = v
    advance_since-Tidy (some last) now later s e v =
        catch_up-Tidy max_catchup_steps (elapsed f now last s) e v

    abbrev pub answer : Call Num → Scheduler f × E → Scheduler f × E
    answer (add_call id) se = (add_target f id se.0, se.1)
    answer (remove_call id) se = (remove f id se.0, se.1)
    answer (start_call now) se = (start f now se.0, se.1)
    answer stop_call se = (stop f se.0, se.1)
    answer (advance_call now later) se = advance f rooms now later se

    unfoldable pub history : List (Call Num) → E → Scheduler f × E
    history [] e = (new f, e)
    history (c ∷ cs) e = answer c (history cs e)

    answer-Tidy : (c : Call Num) (se : Scheduler f × E) → Tidy se.0 → Tidy (answer c se).0
    unfolding start stop advance advance_since
    answer-Tidy (add_call id) se v = add_target-Tidy id se.0 v
    answer-Tidy (remove_call id) se v = remove-Tidy id se.0 v
    answer-Tidy (start_call now) se v = elim (Bool-cases se.0.running) [
      | inl running ↦ rw running v
      | inr idle ↦ rw idle v
    ]
    answer-Tidy stop_call se v = elim (Bool-cases se.0.running) [
      | inl running ↦ rw running v
      | inr idle ↦ rw idle v
    ]
    answer-Tidy (advance_call now later) se v =
        advance_since-Tidy se.0.last_now_ms now later se.0 se.1 v

    -- After any calls, latest first, each room stands once among the targets, and the statistics count them.
    pub history-Tidy : (cs : List (Call Num)) (e : E) → Tidy (history cs e).0
    unfolding history new
    history-Tidy [] e = (λ id. omega arith, refl)
    history-Tidy (c ∷ cs) e = answer-Tidy c (history cs e) (history-Tidy cs e)
