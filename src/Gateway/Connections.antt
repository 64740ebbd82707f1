-- ===== src/Gateway/Connections.antt =====
-- server-game/src/gateway/connection-manager.ts. The four maps stay separate, as in the source: the
-- two counters by address and the index by user are caches of what the first map holds.
pub mod Invariant
pub mod Binding
pub mod Dropping
pub mod Histories
use sw_itch_remake.Base.{
  ℕ, suc, ◌+◌, ◌-◌, String, ◌≡◌, Bool, true, false, ◌&&◌, Option, none, some, List, [], ◌∷◌, arith,
  ltb, leb, ◌==◌, if◌then◌else◌, length, get_or, is_some, ite, String_discrete, ℕ_discrete, not,
}
use sw_itch_remake.Base.Maps.{get, set, delete}
use sw_itch_remake.Types.{ActorId, ActorId-discrete}

pub record ConnectionRecord : Type 0 where
  pub id : ℕ
  pub ip : String
  pub user_id : Option ActorId

pub record ConnectionLimits : Type 0 where
  pub max_connections : ℕ
  pub max_unauthenticated_per_ip : ℕ
  pub max_authenticated_per_ip : ℕ

pub record ConnectionManager : Type 0 where
  pub connections : List (ℕ × ConnectionRecord)
  pub unauthenticated_by_ip : List (String × ℕ)
  pub authenticated_by_ip : List (String × ℕ)
  pub active_users : List (ActorId × ℕ)
  pub limits : ConnectionLimits
  pub open limits use *
  pub next_id : ℕ

unfoldable pub new : ConnectionLimits → ConnectionManager
new limits = record {
  connections = [];
  unauthenticated_by_ip = [];
  authenticated_by_ip = [];
  active_users = [];
  limits = limits;
  next_id = 1;
}

abbrev pub unauthenticated_count : ConnectionManager → String → ℕ
unauthenticated_count m ip = get_or (get String_discrete ip m.unauthenticated_by_ip) 0

abbrev pub authenticated_count : ConnectionManager → String → ℕ
authenticated_count m ip = get_or (get String_discrete ip m.authenticated_by_ip) 0

unfoldable pub can_open : ConnectionManager → String → Bool
can_open m ip =
    ltb (length m.connections) m.max_connections
    && ltb (unauthenticated_count m ip) m.max_unauthenticated_per_ip

abbrev pub opened : ConnectionManager → String → ConnectionRecord
opened m ip = record { id = m.next_id; ip = ip; user_id = none }

unfoldable pub accept : ConnectionManager → String → ConnectionManager
accept m ip = record m {
  connections = set ℕ_discrete m.next_id (opened m ip) m.connections;
  unauthenticated_by_ip =
      set String_discrete ip (unauthenticated_count m ip + 1) m.unauthenticated_by_ip;
  next_id = suc m.next_id;
}

-- `open`: the manager after it, and the identifier of the connection.
unfoldable pub open_connection : ConnectionManager → String → ConnectionManager × Option ℕ
unfolding can_open accept
open_connection m ip = if can_open m ip then (accept m ip, some m.next_id) else (m, none)

abbrev pub is_free : Option ActorId → Bool
is_free none = true
is_free (some u) = false

unfoldable pub can_authenticate_record : ConnectionManager → ConnectionRecord → ActorId → Bool
can_authenticate_record m r user_id =
    is_free r.user_id
    && not (is_some (get ActorId-discrete user_id m.active_users))
    && ltb (authenticated_count m r.ip) m.max_authenticated_per_ip

unfoldable pub can_authenticate : ConnectionManager → ℕ → ActorId → Bool
unfolding can_authenticate_record
can_authenticate m id user_id = elim (get ℕ_discrete id m.connections) [
  | none ↦ false
  | some r ↦ can_authenticate_record m r user_id
]

-- `#decrementUnauthenticated` and `#decrementAuthenticated` on the map they change. The source's
-- difference is 0 at least, since a missing count reads as 1 and a kept one is positive.
unfoldable pub decrement : String → List (String × ℕ) → List (String × ℕ)
decrement ip m =
    let next = get_or (get String_discrete ip m) 1 - 1 in
    if leb next 0 then delete String_discrete ip m else set String_discrete ip next m

unfoldable pub bind_user : ConnectionManager → ℕ → ConnectionRecord → ActorId → ConnectionManager
unfolding decrement
bind_user m id r user_id = record m {
  connections = set ℕ_discrete id (record r { user_id = some user_id }) m.connections;
  unauthenticated_by_ip = decrement r.ip m.unauthenticated_by_ip;
  authenticated_by_ip =
      set String_discrete r.ip (authenticated_count m r.ip + 1) m.authenticated_by_ip;
  active_users = set ActorId-discrete user_id id m.active_users;
}

unfoldable pub authenticate : ConnectionManager → ℕ → ActorId → ConnectionManager × Bool
unfolding can_authenticate_record bind_user
authenticate m id user_id = elim (get ℕ_discrete id m.connections) [
  | none ↦ (m, false)
  | some r ↦
      if can_authenticate_record m r user_id then (bind_user m id r user_id, true) else (m, false)
]

-- `if (this.#activeUsers.get(userId) === id) this.#activeUsers.delete(userId)`.
abbrev pub forget_user : ActorId → ℕ → List (ActorId × ℕ) → List (ActorId × ℕ)
forget_user u id m = elim (get ActorId-discrete u m) [
  | none ↦ m
  | some j ↦ if j == id then delete ActorId-discrete u m else m
]

unfoldable pub drop_record : ConnectionManager → ℕ → ConnectionRecord → ConnectionManager
unfolding decrement
drop_record m id r = elim r.user_id [
  | none ↦ record m {
    connections = delete ℕ_discrete id m.connections;
    unauthenticated_by_ip = decrement r.ip m.unauthenticated_by_ip;
  }
  | some u ↦ record m {
    connections = delete ℕ_discrete id m.connections;
    authenticated_by_ip = decrement r.ip m.authenticated_by_ip;
    active_users = forget_user u id m.active_users;
  }
]

unfoldable pub close : ConnectionManager → ℕ → ConnectionManager × Option ConnectionRecord
unfolding drop_record
close m id = elim (get ℕ_discrete id m.connections) [
  | none ↦ (m, none)
  | some r ↦ (drop_record m id r, some r)
]

-- What the transport calls, in any order.
pub data Call : Type 0 where
  opens : String → Call
  authenticates : ℕ → ActorId → Call
  closes : ℕ → Call

unfoldable pub step : ConnectionManager → Call → ConnectionManager
step m (opens ip) = (open_connection m ip).0
step m (authenticates id user_id) = (authenticate m id user_id).0
step m (closes id) = (close m id).0

unfoldable pub run : ConnectionManager → List Call → ConnectionManager
run m [] = m
run m (c ∷ cs) = run (step m c) cs
