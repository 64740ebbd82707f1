-- ===== src/Gateway/Tickets/Laws.antt =====
-- A ticket of ticket-store.ts is good for one admission, while it lives.
use sw_itch_remake.Base.{
  ℕ, ◌+◌, ◌<◌, ◌↔◌, ◌++◌, count-le, lt→ltb, String, ◌≡◌, true, Option, none, some, List, [], ◌∷◌,
  arith, inl, inr, length, length-filter, Option-cases, String_discrete,
}
use sw_itch_remake.Base.Maps.{
  get, set, get-set, get-delete, Unique, filter-Unique, get-filter_kept, get-filter_absent,
  get-filter_found,
}
use sw_itch_remake.Gateway.Tickets.{
  SeatReservation, IssuedTicket, TicketStore, is_live, delete_expired, sweep_expired, issued,
  is_issuable, draw, issue, consume_when,
}

sweep-absent :
    (now : ℕ) (k : String) (s : TicketStore)
    → get String_discrete k s.reservations ≡ none
    → get String_discrete k (sweep_expired now s).reservations ≡ none
unfolding sweep_expired
sweep-absent now k s e =
    ground (arith, get-filter_absent String_discrete (is_live now) k s.reservations)

sweep-live :
    (now : ℕ) (k : String) (r : SeatReservation) (s : TicketStore)
    → get String_discrete k s.reservations ≡ some r
    → now < r.expires_at
    → get String_discrete k (sweep_expired now s).reservations ≡ some r
unfolding sweep_expired
sweep-live now k r s e h =
    ground (arith, get-filter_kept String_discrete (is_live now) k r s.reservations)

-- What the sweep leaves was there.
sweep-found :
    (now : ℕ) (k : String) (r : SeatReservation) (s : TicketStore)
    → Unique String_discrete s.reservations
    → get String_discrete k (sweep_expired now s).reservations ≡ some r
    → get String_discrete k s.reservations ≡ some r
unfolding sweep_expired
sweep-found now k r s u e =
    ground (arith, get-filter_found String_discrete (is_live now) k r s.reservations u)

sweep-Unique :
    (now : ℕ) (s : TicketStore)
    → Unique String_discrete s.reservations
    → Unique String_discrete (sweep_expired now s).reservations
unfolding sweep_expired
sweep-Unique now s u = ground (arith, filter-Unique String_discrete (is_live now) s.reservations u)

module _ (hash_ticket : String → String) where
  abbrev find_ticket : String → TicketStore → Option SeatReservation
  find_ticket ticket s = get String_discrete (hash_ticket ticket) s.reservations

  -- A consumed ticket has left the store.
  consumed-absent :
      {T : Type 0} (sweep_now now : ℕ) (ticket : String) (admit : SeatReservation → Option T)
      (s t : TicketStore) (x : T)
      → consume_when hash_ticket sweep_now now ticket admit s ≡ (t, some x)
      → find_ticket ticket t ≡ none
  unfolding consume_when
  consumed-absent sweep_now now ticket admit s t x e = ground (
    arith,
    get-delete String_discrete (hash_ticket ticket) (hash_ticket ticket)
        (sweep_expired sweep_now s).reservations,
  )

  -- Once a ticket has admitted somebody, the next use of it on the store that this leaves admits nobody, at any time
  -- and whatever the admission test then says.
  pub consume_twice :
      {T : Type 0} (sweep_now now sweep_later later : ℕ) (ticket : String)
      (admit again : SeatReservation → Option T) (s t : TicketStore) (x : T)
      → consume_when hash_ticket sweep_now now ticket admit s ≡ (t, some x)
      → (consume_when hash_ticket sweep_later later ticket again t).1 ≡ none
  unfolding consume_when
  consume_twice sweep_now now sweep_later later ticket admit again s t x e = ground (
    arith,
    sweep-absent sweep_later (hash_ticket ticket) t,
    consumed-absent sweep_now now ticket admit s t x e,
  )

  draw-found :
      (r : SeatReservation) (s t : TicketStore) (tickets : List String) (i : IssuedTicket)
      → draw hash_ticket r s tickets ≡ issued i t
      → (find_ticket i.ticket t ≡ some r)
        × (find_ticket i.ticket s ≡ none)
        × (i.expires_at ≡ r.expires_at)
  unfolding draw
  draw-found r s t [] i e = cc
  draw-found r s t (ticket ∷ later) i e = ground (
    arith,
    draw-found r s t later i,
    get-set String_discrete (hash_ticket ticket) (hash_ticket ticket) r s.reservations,
  )

  -- The ticket that `issue` hands out admits the reserved person: used before it expires, it runs the
  -- admission test on that very reservation and returns the test's answer.
  pub consume-issue :
      {T : Type 0} (sweep_now now sweep_later later : ℕ) (r : SeatReservation) (s t : TicketStore)
      (tickets : List String) (i : IssuedTicket) (admit : SeatReservation → Option T)
      → issue hash_ticket sweep_now now r s tickets ≡ issued i t
      → sweep_later < r.expires_at
      → later < r.expires_at
      → (consume_when hash_ticket sweep_later later i.ticket admit t).1 ≡ admit r
  unfolding issue consume_when
  consume-issue sweep_now now sweep_later later r s t tickets i admit e h k = ground (
    arith,
    draw-found r (sweep_expired sweep_now s) t tickets i,
    sweep-live sweep_later (hash_ticket i.ticket) r t,
  )

  -- Nobody is admitted on an expired or unknown ticket: a successful use found a reservation under the
  -- ticket's hash, that had not expired, and that the admission test accepted.
  pub consume_sound :
      {T : Type 0} (sweep_now now : ℕ) (ticket : String) (admit : SeatReservation → Option T)
      (s t : TicketStore) (x : T)
      → Unique String_discrete s.reservations
      → consume_when hash_ticket sweep_now now ticket admit s ≡ (t, some x)
      → (r : SeatReservation) × (find_ticket ticket s ≡ some r)
        × (now < r.expires_at)
        × (admit r ≡ some x)
  unfolding consume_when
  consume_sound sweep_now now ticket admit s t x u e =
      elim (Option-cases (find_ticket ticket (sweep_expired sweep_now s))) [
        | inl absent ↦ absurd (ground arith)
        | inr (r, found) ↦
            (r, sweep-found sweep_now (hash_ticket ticket) r s u found, ground arith, ground arith)
      ]

  abbrev ticket_of : SeatReservation → String → IssuedTicket
  ticket_of r ticket = record { ticket = ticket; expires_at = r.expires_at }

  abbrev kept : SeatReservation → String → TicketStore → TicketStore
  kept r ticket s = record s {
    reservations = set String_discrete (hash_ticket ticket) r s.reservations;
  }

  draw_total :
      (r : SeatReservation) (s : TicketStore) (before after : List String) (ticket : String)
      → find_ticket ticket s ≡ none
      → (i : IssuedTicket) × (t : TicketStore) × (draw hash_ticket r s (before ++ ticket ∷ after)
          ≡ issued i t)
  unfolding draw
  draw_total r s [] after ticket free = (ticket_of r ticket, kept r ticket s, rw free)
  draw_total r s (b ∷ before) after ticket free = elim (Option-cases (find_ticket b s)) [
    | inl absent ↦ (ticket_of r b, kept r b s, rw absent)
    | inr (q, taken) ↦ let (i, t, e) = draw_total r s before after ticket free in (i, t, rw taken e)
  ]

  -- The loop ends as soon as the generator yields a ticket whose hash is free: for a reservation that
  -- may be issued, `issue` then hands out a ticket.
  pub issue_total :
      (sweep_now now : ℕ) (r : SeatReservation) (s : TicketStore) (before after : List String)
      (ticket : String)
      → is_issuable now r ≡ true
      → find_ticket ticket s ≡ none
      → (i : IssuedTicket) × (t : TicketStore) × (issue hash_ticket sweep_now now r s
            (before ++ ticket ∷ after)
          ≡ issued i t)
  unfolding issue
  issue_total sweep_now now r s before after ticket ok free =
      let (i, t, e) =
        draw_total r (sweep_expired sweep_now s) before after ticket
          (sweep-absent sweep_now (hash_ticket ticket) s free) in
      (i, t, rw ok e)

-- `deleteExpired` keeps exactly the live entries: what a key finds afterwards is what it found before
-- and has not expired, and nothing else, and the result counts the entries that went.
pub delete_expired_exact :
    (now : ℕ) (s : TicketStore) (k : String) (r : SeatReservation)
    → Unique String_discrete s.reservations
    → ((get String_discrete k (delete_expired now s).0.reservations ≡ some r)
        ↔ ((get String_discrete k s.reservations ≡ some r) × (now < r.expires_at)))
      × (length (delete_expired now s).0.reservations + (delete_expired now s).1
          ≡ length s.reservations)
unfolding delete_expired
delete_expired_exact now s k r u = (
  (
    λ e. ground (arith, get-filter_found String_discrete (is_live now) k r s.reservations u),
    λ h. get-filter_kept String_discrete (is_live now) k r s.reservations h.0 (lt→ltb _ _ h.1),
  ),
  omega (arith, length-filter (is_live now) s.reservations, count-le (is_live now) s.reservations),
)
