-- ===== src/Gateway/Connections/Binding.antt =====
-- A connection that is accepted, and one that signs in (connection-manager.ts).
use sw_itch_remake.Base.{
  ℕ, ◌+◌, String, ◌≡◌, ap, true, some, arith, inl, inr, Bool-cases, length-count, String_discrete,
  ℕ_discrete,
}
use sw_itch_remake.Base.Maps.{get, set, get-set, set-Unique, count-set}
use sw_itch_remake.Types.{ActorId, ActorId-discrete}
use sw_itch_remake.Gateway.Connections.{
  ConnectionRecord, ConnectionManager, unauthenticated_count, authenticated_count, can_open, opened,
  accept, open_connection, can_authenticate_record, bind_user,
}
use sw_itch_remake.Gateway.Connections.Invariant.{Inv, waiting_at, signed_in_at, get-decrement}

accept-Inv :
    (m : ConnectionManager) (ip : String) → can_open m ip ≡ true → Inv m → Inv (accept m ip)
unfolding accept can_open
accept-Inv m ip h v = record {
  unique = set-Unique ℕ_discrete m.next_id _ m.connections v.unique;
  fresh = λ id le.
      ground (arith, get-set ℕ_discrete id m.next_id (opened m ip) m.connections, v.fresh id);
  waiting = λ ip'. ground (
    arith,
    get-set String_discrete ip' ip (unauthenticated_count m ip + 1) m.unauthenticated_by_ip,
    v.waiting ip',
    v.fresh m.next_id,
    count-set ℕ_discrete (waiting_at ip') m.next_id (opened m ip) m.connections,
  );
  signed_in = λ ip'. ground (
    arith,
    v.signed_in ip',
    v.fresh m.next_id,
    count-set ℕ_discrete (signed_in_at ip') m.next_id (opened m ip) m.connections,
  );
  held = λ u id e.
      let (r, g, e') = v.held u id e in
      (
        r,
        ground (arith, get-set ℕ_discrete id m.next_id (opened m ip) m.connections, v.fresh id),
        e',
      );
  indexed = λ u id r g e.
      ground (arith, v.indexed u id r, get-set ℕ_discrete id m.next_id (opened m ip) m.connections);
  bounded = ground (
    arith,
    v.fresh m.next_id,
    length-count (set ℕ_discrete m.next_id (opened m ip) m.connections),
    length-count m.connections,
    count-set ℕ_discrete (λ _. true) m.next_id (opened m ip) m.connections,
  );
  waiting_bounded = λ ip'. ground (
    arith,
    v.waiting_bounded ip',
    get-set String_discrete ip' ip (unauthenticated_count m ip + 1) m.unauthenticated_by_ip,
  );
  signed_in_bounded = v.signed_in_bounded;
}

pub open_connection-Inv :
    (m : ConnectionManager) (ip : String) → Inv m → Inv (open_connection m ip).0
unfolding open_connection
open_connection-Inv m ip v = elim (Bool-cases (can_open m ip)) [
  | inl h ↦ rw h (accept-Inv m ip h v)
  | inr h ↦ rw h v
]

module _ (m : ConnectionManager) (id : ℕ) (r : ConnectionRecord) (u : ActorId)
    (g : get ℕ_discrete id m.connections ≡ some r) (allowed : can_authenticate_record m r u ≡ true)
    (v : Inv m) where
  bind_user-held :
      (w : ActorId) (j : ℕ)
      → get ActorId-discrete w (bind_user m id r u).active_users ≡ some j
      → (q : ConnectionRecord) × (get ℕ_discrete j (bind_user m id r u).connections ≡ some q)
        × (q.user_id ≡ some w)
  unfolding bind_user can_authenticate_record
  bind_user-held w j e = elim (ActorId-discrete u w) [
    | yes p ↦ (
      record r { user_id = some u },
      ground (
        arith,
        get-set ActorId-discrete w u id m.active_users,
        get-set ℕ_discrete j id (record r { user_id = some u }) m.connections,
      ),
      ap some p,
    )
    | no p ↦
        let (q, gq, eq) =
          v.held w j (ground (arith, get-set ActorId-discrete w u id m.active_users)) in
        (
          q,
          ground (arith, get-set ℕ_discrete j id (record r { user_id = some u }) m.connections),
          eq,
        )
  ]

  pub bind_user-Inv : Inv (bind_user m id r u)
  unfolding bind_user can_authenticate_record
  bind_user-Inv = record {
    unique = set-Unique ℕ_discrete id _ m.connections v.unique;
    fresh = λ j le. ground (
      arith,
      get-set ℕ_discrete j id (record r { user_id = some u }) m.connections,
      v.fresh j,
      v.fresh id,
    );
    waiting = λ ip. ground (
      arith,
      get-decrement r.ip ip m.unauthenticated_by_ip,
      v.waiting ip,
      count-set ℕ_discrete (waiting_at ip) id (record r { user_id = some u }) m.connections,
    );
    signed_in = λ ip. ground (
      arith,
      get-set String_discrete ip r.ip (authenticated_count m r.ip + 1) m.authenticated_by_ip,
      v.signed_in ip,
      count-set ℕ_discrete (signed_in_at ip) id (record r { user_id = some u }) m.connections,
    );
    held = bind_user-held;
    indexed = λ w j q gq e. ground (
      arith,
      v.indexed w j q,
      get-set ℕ_discrete j id (record r { user_id = some u }) m.connections,
      get-set ActorId-discrete w u id m.active_users,
    );
    bounded = ground (
      arith,
      v.bounded,
      length-count (set ℕ_discrete id (record r { user_id = some u }) m.connections),
      length-count m.connections,
      count-set ℕ_discrete (λ _. true) id (record r { user_id = some u }) m.connections,
    );
    waiting_bounded =
        λ ip. ground (arith, v.waiting_bounded ip, get-decrement r.ip ip m.unauthenticated_by_ip);
    signed_in_bounded = λ ip. ground (
      arith,
      v.signed_in_bounded ip,
      get-set String_discrete ip r.ip (authenticated_count m r.ip + 1) m.authenticated_by_ip,
    );
  }
