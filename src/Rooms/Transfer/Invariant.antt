-- ===== src/Rooms/Transfer/Invariant.antt =====
-- The move of a room between two servers (server-game/src/rooms/hand-off.ts): what is true of the key, the source and
-- the target at all times.
use sw_itch_remake.Base.{
  ℕ, ◌≤◌, ◌<◌, ◌≡◌, refl, subst, ◌⊎◌, inl, inr, Bool, true, false, ◌||◌, Option, none, ◌==◌, arith,
  is_some, Bool-cases,
}
use sw_itch_remake.Types.{closed}
use sw_itch_remake.Rooms.Room.State.{Room, state_of}
use sw_itch_remake.Rooms.Transfer.{
  Transfer, Phase, serving, opening, sending, settling, closing, moved, Target, absent, staged,
  live, System, is_pending, is_committed, cancelled_room, start,
}

-- The room neither lets anybody in nor plays: it is frozen, or closed.
abbrev pub IsIdle : Room → Type 0
IsIdle r = (r.handing_off ≡ true) ⊎ (state_of r ≡ closed)

abbrev pub awaits : Phase → ℕ → Bool
awaits (settling u) t = u == t
awaits (closing u) t = u == t
awaits _ t = false

abbrev pub has_moved : Phase → ℕ → Bool
has_moved (moved u) t = u == t
has_moved _ t = false

abbrev pub holds : Target → ℕ → Bool
holds absent t = false
holds (staged u progress) t = u == t
holds (live u) t = u == t

-- What is true in each phase of the source.
abbrev pub PhaseFits : Phase → Room → ℕ → (ℕ → Option Transfer) → (ℕ → Bool) → Type 0
PhaseFits serving r next keys sent = Unit
PhaseFits (opening t) r next keys sent = (r.handing_off ≡ true) × (t < next) × (sent t ≡ false)
PhaseFits (sending t) r next keys sent =
    (r.handing_off ≡ true)
    × (t < next)
    × (is_committed (keys t) ≡ false)
    × (is_some (keys t) ≡ true)
PhaseFits (settling t) r next keys sent =
    (r.handing_off ≡ true) × (t < next) × (is_some (keys t) ≡ true)
PhaseFits (closing t) r next keys sent =
    (r.handing_off ≡ true) × (t < next) × (is_some (keys t) ≡ true)
PhaseFits (moved t) r next keys sent = (state_of r ≡ closed) × (is_committed (keys t) ≡ true)

abbrev pub TargetFits : Target → (ℕ → Option Transfer) → (ℕ → Bool) → Type 0
TargetFits absent keys sent = Unit
TargetFits (staged t progress) keys sent = sent t ≡ true
TargetFits (live t) keys sent = is_committed (keys t) ≡ true

pub record Inv (s : System) : Type 0 where
  pub phase_fits : PhaseFits s.phase s.room s.next_transfer s.keys s.sent
  pub target_fits : TargetFits s.target s.keys s.sent
  pub fresh : (t : ℕ) → s.next_transfer ≤ t → (s.keys t ≡ none) × (s.sent t ≡ false)
  -- Only the transfer that is being settled can still be committed.
  pub open_transfer :
      (t : ℕ) → s.sent t ≡ true → is_pending (s.keys t) ≡ true → awaits s.phase t ≡ true
  -- And a committed one is known to both, or will be.
  pub known :
      (t : ℕ)
      → is_committed (s.keys t) ≡ true
      → ((awaits s.phase t || has_moved s.phase t) ≡ true) × (holds s.target t ≡ true)

pub start-Inv : (r : Room) → Inv (start r)
start-Inv r = record {
  phase_fits = tt;
  target_fits = tt;
  fresh = λ t h. (refl, refl);
  open_transfer = λ t a b. cc;
  known = λ t h. cc;
}

pub cancelled_room-Inv :
    (s : System)
    → ((t : ℕ) → awaits s.phase t ≡ true → is_pending (s.keys t) ≡ true → s.sent t ≡ false)
    → ((t : ℕ) → is_committed (s.keys t) ≡ false)
    → Inv s
    → Inv (cancelled_room s)
cancelled_room-Inv s quiet none_yet v = record {
  phase_fits = tt;
  target_fits = v.target_fits;
  fresh = v.fresh;
  open_transfer =
      λ t a b. absurd (ground (arith, v.open_transfer t a b, quiet t (v.open_transfer t a b) b));
  known = λ t h. absurd (ground (arith, none_yet t));
}

-- While nothing is being settled, nothing is committed.
pub none_committed :
    (s : System)
    → ((t : ℕ) → (awaits s.phase t || has_moved s.phase t) ≡ false)
    → Inv s
    → (t : ℕ) → is_committed (s.keys t) ≡ false
none_committed s out v t = elim (Bool-cases (is_committed (s.keys t))) [
  | inl e ↦ cc (out t, (v.known t e).0)
  | inr e ↦ e
]

pub fits_at :
    (s : System) (p : Phase)
    → s.phase ≡ p
    → Inv s
    → PhaseFits p s.room s.next_transfer s.keys s.sent
fits_at s p here v = subst (λ q. PhaseFits q s.room s.next_transfer s.keys s.sent) here v.phase_fits
