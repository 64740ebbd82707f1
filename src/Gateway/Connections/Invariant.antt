-- ===== src/Gateway/Connections/Invariant.antt =====
-- When the four maps of connection-manager.ts agree: the counters and the index by user against the
-- open connections.
use sw_itch_remake.Base.{
  ℕ, ◌-◌, ◌≤◌, String, ◌≡◌, Bool, false, none, some, List, arith, length, count, get_or, is_some,
  ite, String_discrete, ℕ_discrete,
}
use sw_itch_remake.Base.Maps.{get, get-set, get-delete, Unique}
use sw_itch_remake.Types.{ActorId, ActorId-discrete}
use sw_itch_remake.Gateway.Connections.{
  ConnectionRecord, ConnectionManager, unauthenticated_count, authenticated_count, is_free,
  decrement,
}

-- An open connection from the address that has not, or has, signed in.
abbrev pub waiting_at : String → ℕ × ConnectionRecord → Bool
waiting_at ip (id, r) = ite (String_discrete r.ip ip) (is_free r.user_id) false

abbrev pub signed_in_at : String → ℕ × ConnectionRecord → Bool
signed_in_at ip (id, r) = ite (String_discrete r.ip ip) (is_some r.user_id) false

pub record Inv (m : ConnectionManager) : Type 0 where
  pub unique : Unique ℕ_discrete m.connections
  pub fresh : (id : ℕ) → m.next_id ≤ id → get ℕ_discrete id m.connections ≡ none
  pub waiting : (ip : String) → unauthenticated_count m ip ≡ count (waiting_at ip) m.connections
  pub signed_in : (ip : String) → authenticated_count m ip ≡ count (signed_in_at ip) m.connections
  pub held :
      (u : ActorId) (id : ℕ)
      → get ActorId-discrete u m.active_users ≡ some id
      → (r : ConnectionRecord) × (get ℕ_discrete id m.connections ≡ some r) × (r.user_id ≡ some u)
  pub indexed :
      (u : ActorId) (id : ℕ) (r : ConnectionRecord)
      → get ℕ_discrete id m.connections ≡ some r
      → r.user_id ≡ some u
      → get ActorId-discrete u m.active_users ≡ some id
  pub bounded : length m.connections ≤ m.max_connections
  pub waiting_bounded : (ip : String) → unauthenticated_count m ip ≤ m.max_unauthenticated_per_ip
  pub signed_in_bounded : (ip : String) → authenticated_count m ip ≤ m.max_authenticated_per_ip

pub get-decrement :
    (ip ip' : String) (m : List (String × ℕ))
    → get_or (get String_discrete ip' (decrement ip m)) 0
      ≡ get_or (get String_discrete ip' m) 0 - ite (String_discrete ip ip') 1 0
unfolding decrement
get-decrement ip ip' m = ground (
  arith,
  get-set String_discrete ip' ip (get_or (get String_discrete ip m) 1 - 1) m,
  get-delete String_discrete ip' ip m,
)
