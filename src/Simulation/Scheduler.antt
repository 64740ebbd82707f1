-- ===== src/Simulation/Scheduler.antt =====
-- server-game/src/simulation/scheduler.ts: the loop of fixed steps over the rooms of a process. The rooms and
-- what they publish to are one environment, which the functions of a room change.
pub mod Laws
use sw_itch_remake.Base.{
  ℕ, zero, suc, ◌+◌, ◌%◌, ◌≡◌, Bool, true, false, not, Option, none, some, List, [], ◌∷◌,
  if◌then◌else◌, ◌==◌, leb, length, String, String_discrete, ite,
}
use sw_itch_remake.Simulation.Floats.{Floats, of_ℕ}
use sw_itch_remake.Simulation.Floats

abbrev pub max_catchup_steps : ℕ
max_catchup_steps = 5

-- `Math.round(SIMULATION_HZ / SNAPSHOT_HZ)`.
abbrev pub snapshot_interval_ticks : ℕ
snapshot_interval_ticks = 2

-- `targets`, by the ids in the order of insertion: a room is added again in its place.
abbrev pub add_id : String → List String → List String
add_id id [] = id ∷ []
add_id id (x ∷ xs) = ite (String_discrete x id) (x ∷ xs) (x ∷ add_id id xs)

abbrev pub remove_id : String → List String → List String
remove_id id [] = []
remove_id id (x ∷ xs) = ite (String_discrete x id) xs (x ∷ remove_id id xs)

-- What a process has around its scheduler: for each room, how it steps (a frame, or none when it has ended) and
-- how it publishes a frame. `step` and `publish` of GameSession stand behind them.
pub record Rooms (E F : Type 0) : Type 0 where
  pub step : String → E → E × Option F
  pub publish : String → F → E → E

module _ (f : Floats) where
  open f use {Num, add, sub, div, leb}

  -- `SIMULATION_STEP_MS`.
  abbrev pub step_ms : Num
  step_ms = div (of_ℕ f 1000) (of_ℕ f 60)

  abbrev pub epsilon_ms : Num
  epsilon_ms = f.lit 1 1_000_000_000

  abbrev pub loop_lag_drain_threshold_ms : Num
  loop_lag_drain_threshold_ms = of_ℕ f 50

  -- The timer's handle is kept only as whether there is one.
  pub record Scheduler : Type 0 where
    pub targets : List String
    pub accumulator_ms : Num
    pub last_now_ms : Option Num
    pub tick_counter : ℕ
    pub running : Bool
    pub loop_lag_ms : Num
    pub dropped_ms : Num
    pub target_count : ℕ

  abbrev pub with_targets : List String → Scheduler → Scheduler
  with_targets ids s = record s { targets = ids; target_count = length ids }

  -- The constructor.
  unfoldable pub new : Scheduler
  new = record {
    targets = [];
    accumulator_ms = of_ℕ f 0;
    last_now_ms = none;
    tick_counter = 0;
    running = false;
    loop_lag_ms = of_ℕ f 0;
    dropped_ms = of_ℕ f 0;
    target_count = 0;
  }

  unfoldable pub add_target : String → Scheduler → Scheduler
  add_target id s = with_targets (add_id id s.targets) s

  unfoldable pub remove : String → Scheduler → Scheduler
  remove id s = with_targets (remove_id id s.targets) s

  unfoldable pub start : Num → Scheduler → Scheduler
  start now s = if s.running then s else record s { last_now_ms = some now; running = true }

  unfoldable pub stop : Scheduler → Scheduler
  stop s =
      if s.running
      then record s { running = false; last_now_ms = none; accumulator_ms = of_ℕ f 0 }
      else s

  unfoldable pub should_drain : Scheduler → Bool
  should_drain s = not (leb s.loop_lag_ms loop_lag_drain_threshold_ms)

  abbrev pub is_due : Scheduler → Bool
  is_due s = leb step_ms (add s.accumulator_ms epsilon_ms)

  abbrev pub elapsed : Num → Num → Scheduler → Scheduler
  elapsed now last s = record s {
    last_now_ms = some now;
    accumulator_ms = add s.accumulator_ms (sub now last);
  }

  module _ {E F : Type 0} (rooms : Rooms E F) where
    abbrev pub publish_if : Bool → String → Option F → E → E
    publish_if publishing id none e = e
    publish_if publishing id (some frame) e = if publishing then rooms.publish id frame e else e

    abbrev pub drop_if_ended : String → Option F → Scheduler → Scheduler
    drop_if_ended id none s = remove id s
    drop_if_ended id (some frame) s = s

    -- The body of the loop of `stepAll`, for one room.
    unfoldable pub step_target : Bool → String → Scheduler × E → Scheduler × E
    unfolding remove
    step_target publishing id se =
        let stepped = rooms.step id se.1 in
        (drop_if_ended id stepped.1 se.0, publish_if publishing id stepped.1 stepped.0)

    -- The loop, over the copy of the targets.
    unfoldable pub step_targets : Bool → List String → Scheduler × E → Scheduler × E
    unfolding step_target
    step_targets publishing [] se = se
    step_targets publishing (id ∷ ids) se =
        step_targets publishing ids (step_target publishing id se)

    unfoldable pub step_all : Scheduler × E → Scheduler × E
    unfolding step_targets
    step_all (s, e) =
        let counter = s.tick_counter + 1 in
        step_targets (counter % snapshot_interval_ticks == 0) s.targets
          (record s { tick_counter = counter }, e)

    -- The loop of `advance`, with the steps that are left before the catch-up limit.
    unfoldable pub catch_up : ℕ → Scheduler × E → Scheduler × E
    unfolding step_all
    catch_up zero (s, e) =
        if is_due s
        then (
          record s { dropped_ms = add s.dropped_ms s.accumulator_ms; accumulator_ms = of_ℕ f 0 },
          e,
        )
        else (s, e)
    catch_up (suc n) (s, e) =
        let rest =
          catch_up n (step_all (record s { accumulator_ms = sub s.accumulator_ms step_ms }, e)) in
        if is_due s then rest else (s, e)

    unfoldable pub advance_since : Option Num → Num → Num → Scheduler × E → Scheduler × E
    unfolding catch_up
    advance_since none now later (s, e) = (record s { last_now_ms = some now }, e)
    advance_since (some last) now later (s, e) =
        let done = catch_up max_catchup_steps (elapsed now last s, e) in
        (record done.0 { loop_lag_ms = sub later now }, done.1)

    -- `advance`, with what the clock gives at its start and at its end.
    unfoldable pub advance : Num → Num → Scheduler × E → Scheduler × E
    unfolding advance_since
    advance now later (s, e) = advance_since s.last_now_ms now later (s, e)
