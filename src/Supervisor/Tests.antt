-- ===== src/Supervisor/Tests.antt =====
-- An instance for policy.ts, over whole numbers in place of doubles.
use sw_itch_remake.Base.{ℕ, ◌+◌, ◌-◌, ◌*◌, ◌/◌, String, Bool, false, none, [], ◌∷◌, leb, ◌==◌}
use sw_itch_remake.Base.Int.{ℤ, pos, negsuc}
use sw_itch_remake.Simulation.Floats.{Floats}
use sw_itch_remake.Supervisor.Policy.{Heartbeat, ScalingInput, decide_scaling}
use sw_itch_remake.Supervisor.Laws.{IsSafe, decide_scaling-IsSafe}

abbrev rounded : ℤ → ℕ
rounded (pos n) = n
rounded (negsuc n) = 0

abbrev whole : Floats
whole = record {
  Num = ℕ;
  lit = λ n d. n / d;
  of_int = rounded;
  add = λ a b. a + b;
  sub = λ a b. a - b;
  mul = λ a b. a * b;
  div = λ a b. a / b;
  neg = λ a. a;
  sqrt = λ a. a;
  hypot = λ a b. a + b;
  floor = λ a. pos a;
  round = λ a. a;
  ceil = λ a. a;
  leb = leb;
  eqb = λ a b. a == b;
}

abbrev quiet_server : String → Heartbeat whole
quiet_server id = record {
  server_id = id;
  waiting_rooms = 0;
  playing_rooms = 0;
  connections = 0;
  loop_lag_ms = 0;
  draining = false;
}

abbrev quiet_evening : ScalingInput whole
quiet_evening = record {
  servers = quiet_server "a" ∷ quiet_server "b" ∷ [];
  starting = 0;
  now = 100_000;
  last_action_at = none;
  policy = record {
    min_servers = 1;
    max_servers = 4;
    scale_up_load = 6;
    scale_down_load = 2;
    cooldown_ms = 30_000;
  };
}

abbrev in_order : String → String → Bool
in_order a b = false

decide_scaling-IsSafe_example :
    IsSafe whole in_order quiet_evening (decide_scaling whole in_order quiet_evening)
decide_scaling-IsSafe_example = decide_scaling-IsSafe whole in_order quiet_evening
