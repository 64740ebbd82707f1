-- ===== src/Gateway/Tickets.antt =====
-- server-game/src/gateway/ticket-store.ts. The hash, the random tickets and the clock are arguments:
-- `issue` takes the tickets that the generator yields, in order, and each reading of the clock.
pub mod Laws
use sw_itch_remake.Base.{
  ℕ, ◌+◌, ◌-◌, String, ◌≡◌, Bool, ◌&&◌, ◌||◌, Option, none, some, List, [], ◌∷◌, ltb, leb,
  if◌then◌else◌, length, filter, is_some, String_discrete,
}
use sw_itch_remake.Base.Maps.{get, set, delete}
use sw_itch_remake.Types.{ActorId, LobbyStats}

pub record SeatReservation : Type 0 where
  pub user_id : ActorId
  pub nickname : String
  pub lobby_stats : Option LobbyStats
  pub room_id : String
  pub server_id : String
  pub issued_at : ℕ
  pub expires_at : ℕ
  pub resume : Bool

pub record IssuedTicket : Type 0 where
  pub ticket : String
  pub expires_at : ℕ

pub record TicketStore : Type 0 where
  pub reservations : List (String × SeatReservation)
  pub next_sweep_at : ℕ

abbrev pub sweep_interval_ms : ℕ
sweep_interval_ms = 10_000

abbrev pub seat_reservation_ttl_ms : ℕ
seat_reservation_ttl_ms = 15_000

unfoldable pub new : TicketStore
new = record { reservations = []; next_sweep_at = 0 }

-- An entry that `deleteExpired` leaves.
abbrev pub is_live : ℕ → String × SeatReservation → Bool
is_live now (digest, r) = ltb now r.expires_at

-- `deleteExpired`: the store, and how many entries went.
unfoldable pub delete_expired : ℕ → TicketStore → TicketStore × ℕ
delete_expired now s =
    let kept = filter (is_live now) s.reservations in
    (record s { reservations = kept }, length s.reservations - length kept)

unfoldable pub sweep_expired : ℕ → TicketStore → TicketStore
unfolding delete_expired
sweep_expired now s =
    if ltb now s.next_sweep_at
    then s
    else (delete_expired now (record s { next_sweep_at = now + sweep_interval_ms })).0

pub data Issue : Type 0 where
  issued : IssuedTicket → TicketStore → Issue
  -- `throw new Error('ticket reservation must be live …')`, after the sweep.
  refused : TicketStore → Issue
  -- The generator gave no ticket whose hash is free.
  exhausted : TicketStore → Issue

abbrev pub is_issuable : ℕ → SeatReservation → Bool
is_issuable now r =
    ltb r.issued_at r.expires_at
    && ltb now r.expires_at
    && leb (r.expires_at - r.issued_at) seat_reservation_ttl_ms

module _ (hash_ticket : String → String) where
  -- The `do … while` loop over the generator.
  unfoldable pub draw : SeatReservation → TicketStore → List String → Issue
  draw r s [] = exhausted s
  draw r s (ticket ∷ later) =
      let retry = draw r s later in
      if is_some (get String_discrete (hash_ticket ticket) s.reservations)
      then retry
      else issued (record { ticket = ticket; expires_at = r.expires_at })
          (record s { reservations = set String_discrete (hash_ticket ticket) r s.reservations })

  unfoldable pub issue : ℕ → ℕ → SeatReservation → TicketStore → List String → Issue
  unfolding draw sweep_expired
  issue sweep_now now r s tickets =
      let swept = sweep_expired sweep_now s in
      if is_issuable now r then draw r swept tickets else refused swept

  -- What follows the lookup in `consumeWhen`.
  unfoldable pub consume_found :
      {T : Type 0} → ℕ → String → SeatReservation → Option T → TicketStore → TicketStore × Option T
  consume_found now digest r admitted s =
      let gone = record s { reservations = delete String_discrete digest s.reservations } in
      if leb r.expires_at now
      then (gone, none)
      else elim admitted [ none ↦ (s, none) | some t ↦ (gone, some t) ]

  unfoldable pub consume_when :
      {T : Type 0}
      → ℕ
      → ℕ
      → String
      → (SeatReservation → Option T)
      → TicketStore
      → TicketStore × Option T
  unfolding consume_found sweep_expired
  consume_when sweep_now now ticket admit s =
      let swept = sweep_expired sweep_now s in
      elim (get String_discrete (hash_ticket ticket) swept.reservations) [
        | none ↦ (swept, none)
        | some r ↦ consume_found now (hash_ticket ticket) r (admit r) swept
      ]
