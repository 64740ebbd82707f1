-- ===== src/Supervisor/Policy.antt =====
-- server-supervisor/src/policy.ts. A heartbeat has the fields that the rule reads, an action no text for its
-- reason. The order of ids, `localeCompare`, is a parameter.
use sw_itch_remake.Base.{
  ℕ, ◌+◌, ◌-◌, String, Bool, true, false, ◌&&◌, ◌||◌, not, Option, none, some, List, [], ◌∷◌,
  if◌then◌else◌, ltb, filter, length,
}
use sw_itch_remake.Simulation.Floats.{Floats, of_ℕ}
use sw_itch_remake.Simulation.Floats

pub data ScalingAction : Type 0 where
  stay up : ScalingAction
  down : String → ScalingAction

module _ (f : Floats) where
  open f use {Num, add, div, leb}

  pub record Heartbeat : Type 0 where
    pub server_id : String
    pub waiting_rooms : ℕ
    pub playing_rooms : ℕ
    pub connections : ℕ
    pub loop_lag_ms : Num
    pub draining : Bool

  pub record ScalingPolicy : Type 0 where
    pub min_servers : ℕ
    pub max_servers : ℕ
    pub scale_up_load : Num
    pub scale_down_load : Num
    pub cooldown_ms : ℕ

  pub record ScalingInput : Type 0 where
    pub servers : List Heartbeat
    pub starting : ℕ
    pub now : ℕ
    pub last_action_at : Option ℕ
    pub policy : ScalingPolicy

  unfoldable pub server_load : Heartbeat → Num
  server_load s =
      add (add (of_ℕ f (s.waiting_rooms + s.playing_rooms)) (div (of_ℕ f s.connections) (of_ℕ f 8)))
        (div s.loop_lag_ms (of_ℕ f 1000))

  unfoldable pub total_load : Num → List Heartbeat → Num
  total_load sum [] = sum
  total_load sum (s ∷ rest) = total_load (add sum (server_load s)) rest

  abbrev pub active : ScalingInput → List Heartbeat
  active i = filter (λ s. not s.draining) i.servers

  abbrev pub capacity : ScalingInput → ℕ
  capacity i = length (active i) + i.starting

  -- The average of no servers is infinite, and above every bound.
  abbrev pub exceeds : List Heartbeat → Num → Bool
  exceeds [] bound = true
  exceeds (s ∷ rest) bound =
      Floats.ltb f bound (div (total_load (of_ℕ f 0) (s ∷ rest)) (of_ℕ f (length (s ∷ rest))))

  abbrev pub is_below : List Heartbeat → Num → Bool
  is_below [] bound = false
  is_below (s ∷ rest) bound =
      Floats.ltb f (div (total_load (of_ℕ f 0) (s ∷ rest)) (of_ℕ f (length (s ∷ rest)))) bound

  abbrev pub is_cooling : Option ℕ → ℕ → ℕ → Bool
  is_cooling none now cooldown_ms = false
  is_cooling (some last) now cooldown_ms = ltb (now - last) cooldown_ms

  module _ (comes_before : String → String → Bool) where
    -- Whether the comparison of a with b is negative.
    abbrev pub is_quieter : Heartbeat → Heartbeat → Bool
    is_quieter a b =
        Floats.ltb f (server_load a) (server_load b)
        || (not (Floats.ltb f (server_load b) (server_load a))
            && comes_before a.server_id b.server_id)

    -- The first of the sorted servers: the first that none is quieter than.
    unfoldable pub quietest : Heartbeat → List Heartbeat → Heartbeat
    quietest best [] = best
    quietest best (s ∷ rest) = quietest (if is_quieter s best then s else best) rest

    abbrev pub shut_down : List Heartbeat → ScalingAction
    shut_down [] = stay
    shut_down (s ∷ rest) = down (quietest s rest).server_id

    -- The end of the rule, with the loads, for a settled system.
    unfoldable pub balance : ScalingInput → ScalingAction
    unfolding quietest
    balance i =
        if exceeds (active i) i.policy.scale_up_load && ltb (capacity i) i.policy.max_servers
        then up
        else if ltb (length (active i)) (length i.servers)
        then stay
        else if is_below (active i) i.policy.scale_down_load
            && ltb i.policy.min_servers (length (active i))
        then shut_down (active i)
        else stay

    unfoldable pub decide_scaling : ScalingInput → ScalingAction
    unfolding balance
    decide_scaling i =
        if ltb (capacity i) i.policy.min_servers
        then up
        else if is_cooling i.last_action_at i.now i.policy.cooldown_ms
        then stay
        else if ltb 0 i.starting
        then stay
        else balance i
