-- ===== src/Gateway/Connections/Histories.antt =====
-- Sequences of calls of connection-manager.ts, from a new manager.
use sw_itch_remake.Base.{
  ℕ, ◌≡◌, refl, some, List, [], ◌∷◌, arith, inl, inr, Bool-cases, Option-cases, ℕ_discrete,
}
use sw_itch_remake.Base.Maps.{get}
use sw_itch_remake.Types.{ActorId}
use sw_itch_remake.Gateway.Connections.{
  ConnectionRecord, ConnectionLimits, ConnectionManager, new, can_authenticate_record, authenticate,
  close, Call, opens, authenticates, closes, step, run,
}
use sw_itch_remake.Gateway.Connections.Invariant.{Inv}
use sw_itch_remake.Gateway.Connections.Binding.{open_connection-Inv, bind_user-Inv}
use sw_itch_remake.Gateway.Connections.Dropping.{drop_record-Inv}

authenticate-Inv :
    (m : ConnectionManager) (id : ℕ) (u : ActorId) → Inv m → Inv (authenticate m id u).0
unfolding authenticate
authenticate-Inv m id u v = elim (Option-cases (get ℕ_discrete id m.connections)) [
  | inl absent ↦ rw (absent, authenticate) v
  | inr (r, present) ↦ elim (Bool-cases (can_authenticate_record m r u)) [
    | inl yes' ↦ rw (present, authenticate, yes') (bind_user-Inv m id r u present yes' v)
    | inr no' ↦ rw (present, authenticate, no') v
  ]
]

close-Inv : (m : ConnectionManager) (id : ℕ) → Inv m → Inv (close m id).0
unfolding close
close-Inv m id v = elim (Option-cases (get ℕ_discrete id m.connections)) [
  | inl absent ↦ rw (absent, close) v
  | inr (r, present) ↦ rw (present, close) (drop_record-Inv m id r present v)
]

-- Each call, allowed or refused, on an open connection or not, keeps the four maps in agreement and
-- the three limits.
pub step-Inv : (m : ConnectionManager) (c : Call) → Inv m → Inv (step m c)
unfolding step
step-Inv m (opens ip) v = open_connection-Inv m ip v
step-Inv m (authenticates id u) v = authenticate-Inv m id u v
step-Inv m (closes id) v = close-Inv m id v

new-Inv : (limits : ConnectionLimits) → Inv (new limits)
unfolding new get
new-Inv limits = record {
  unique = tt;
  fresh = λ id le. refl;
  waiting = λ ip. refl;
  signed_in = λ ip. refl;
  held = λ u id e. cc;
  indexed = λ u id r g e. cc;
  bounded = omega arith;
  waiting_bounded = λ ip. omega arith;
  signed_in_bounded = λ ip. omega arith;
}

run_from-Inv : (m : ConnectionManager) (cs : List Call) → Inv m → Inv (run m cs)
unfolding run
run_from-Inv m [] v = v
run_from-Inv m (c ∷ cs) v = run_from-Inv (step m c) cs (step-Inv m c v)

-- From a new manager any calls lead to a state in which the four maps agree and the limits hold.
pub run-Inv : (limits : ConnectionLimits) (cs : List Call) → Inv (run (new limits) cs)
run-Inv limits cs = run_from-Inv (new limits) cs (new-Inv limits)

-- After any calls two open connections of one user are the same connection.
pub run-one_connection_per_user :
    (limits : ConnectionLimits) (cs : List Call) (u : ActorId) (i j : ℕ) (q r : ConnectionRecord)
    → get ℕ_discrete i (run (new limits) cs).connections ≡ some q
    → get ℕ_discrete j (run (new limits) cs).connections ≡ some r
    → q.user_id ≡ some u
    → r.user_id ≡ some u
    → i ≡ j
run-one_connection_per_user limits cs u i j q r gi gj eq er =
    let v = run-Inv limits cs in cc (v.indexed u i q gi eq, v.indexed u j r gj er)
