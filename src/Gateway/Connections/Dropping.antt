-- ===== src/Gateway/Connections/Dropping.antt =====
-- A connection that closes (connection-manager.ts).
use sw_itch_remake.Base.{
  ℕ, ◌≡◌, true, none, some, arith, inl, inr, Option-cases, length-count, ite, ℕ_discrete,
}
use sw_itch_remake.Base.Maps.{get, delete, get-delete, delete-Unique, count-delete}
use sw_itch_remake.Types.{ActorId, ActorId-discrete}
use sw_itch_remake.Gateway.Connections.{ConnectionRecord, ConnectionManager, drop_record}
use sw_itch_remake.Gateway.Connections.Invariant.{Inv, waiting_at, signed_in_at, get-decrement}

module _ (m : ConnectionManager) (id : ℕ) (r : ConnectionRecord)
    (g : get ℕ_discrete id m.connections ≡ some r) (v : Inv m) where
  -- The user's entry goes, and no other one: `indexed` says that it names this connection.
  active-drop_record :
      (u w : ActorId)
      → r.user_id ≡ some u
      → get ActorId-discrete w (drop_record m id r).active_users
        ≡ ite (ActorId-discrete u w) none (get ActorId-discrete w m.active_users)
  unfolding drop_record
  active-drop_record u w e =
      ground (arith, v.indexed u id r g, get-delete ActorId-discrete w u m.active_users)

  drop_record-held :
      (w : ActorId) (j : ℕ)
      → get ActorId-discrete w (drop_record m id r).active_users ≡ some j
      → (q : ConnectionRecord) × (get ℕ_discrete j (drop_record m id r).connections ≡ some q)
        × (q.user_id ≡ some w)
  unfolding drop_record
  drop_record-held w j e = elim (Option-cases r.user_id) [
    | inl free ↦
        let (q, gq, eq) = v.held w j (ground arith) in
        (q, ground (arith, get-delete ℕ_discrete j id m.connections), eq)
    | inr (u, bound) ↦
        let (q, gq, eq) = v.held w j (ground (arith, active-drop_record u w bound)) in
        (
          q,
          ground (arith, get-delete ℕ_discrete j id m.connections, active-drop_record u w bound),
          eq,
        )
  ]

  drop_record-indexed :
      (w : ActorId) (j : ℕ) (q : ConnectionRecord)
      → get ℕ_discrete j (drop_record m id r).connections ≡ some q
      → q.user_id ≡ some w
      → get ActorId-discrete w (drop_record m id r).active_users ≡ some j
  unfolding drop_record
  drop_record-indexed w j q gq e = elim (Option-cases r.user_id) [
    | inl free ↦ ground (arith, v.indexed w j q, get-delete ℕ_discrete j id m.connections)
    | inr (u, bound) ↦ ground (
      arith,
      v.indexed w j q,
      v.indexed u id r g,
      get-delete ℕ_discrete j id m.connections,
      active-drop_record u w bound,
    )
  ]

  pub drop_record-Inv : Inv (drop_record m id r)
  unfolding drop_record
  drop_record-Inv = record {
    unique = ground (arith, v.unique, delete-Unique ℕ_discrete id m.connections v.unique);
    fresh = λ j le. ground (arith, get-delete ℕ_discrete j id m.connections, v.fresh j);
    waiting = λ ip. ground (
      arith,
      get-decrement r.ip ip m.unauthenticated_by_ip,
      v.waiting ip,
      count-delete ℕ_discrete (waiting_at ip) id m.connections v.unique,
    );
    signed_in = λ ip. ground (
      arith,
      get-decrement r.ip ip m.authenticated_by_ip,
      v.signed_in ip,
      count-delete ℕ_discrete (signed_in_at ip) id m.connections v.unique,
    );
    held = drop_record-held;
    indexed = drop_record-indexed;
    bounded = ground (
      arith,
      v.bounded,
      length-count (delete ℕ_discrete id m.connections),
      length-count m.connections,
      count-delete ℕ_discrete (λ _. true) id m.connections v.unique,
    );
    waiting_bounded =
        λ ip. ground (arith, v.waiting_bounded ip, get-decrement r.ip ip m.unauthenticated_by_ip);
    signed_in_bounded =
        λ ip. ground (arith, v.signed_in_bounded ip, get-decrement r.ip ip m.authenticated_by_ip);
  }
