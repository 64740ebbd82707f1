-- ===== src/Gateway/Violations/Entries.antt =====
-- rate-limit-violations.ts (server-game/src/gateway): the counts of the entries, and what a flush does to them.
use sw_itch_remake.Base.{
  ℕ, ◌+◌, ◌≡◌, ◌≢◌, refl, ap, ◌∙◌, inl, inr, String, Bool, true, Option, none, some, List, [], ◌∷◌,
  ◌++◌, arith, if_both, ite, All, Option-cases,
}
use sw_itch_remake.Base.Maps.{get, set, delete, Unique, delete-Unique, get-delete, delete_absent}
use sw_itch_remake.Gateway.Violations.{
  ViolationSignal, Aggregate, Report, Aggregator, Key-discrete, gathered, record_violation,
  report_of, flush, flush_each,
}

abbrev pub Entries : Type 0
Entries = List ((ℕ × String) × Aggregate)

-- The violations that wait, and those that have been reported.
abbrev pub waiting : List ((ℕ × String) × Aggregate) → ℕ
waiting [] = 0
waiting (e ∷ es) = e.1.count + waiting es

abbrev pub reported : List Report → ℕ
reported [] = 0
reported (r ∷ rs) = r.count + reported rs

abbrev pub accounted : Aggregator → ℕ
accounted s = waiting s.aggregates + reported s.reports

pub reported-append : (rs qs : List Report) → reported (rs ++ qs) ≡ reported rs + reported qs
reported-append [] qs = omega arith
reported-append (r ∷ rs) qs = omega (arith, reported-append rs qs)

abbrev pub count_of : Option Aggregate → ℕ
count_of none = 0
count_of (some a) = a.count

pub waiting-set :
    (k : ℕ × String) (a : Aggregate) (es : Entries)
    → waiting (set Key-discrete k a es) + count_of (get Key-discrete k es) ≡ waiting es + a.count
unfolding set get
waiting-set k a [] = omega arith
waiting-set k a ((j, b) ∷ es) = ground (arith, waiting-set k a es)

pub waiting-delete :
    (k : ℕ × String) (es : Entries)
    → Unique Key-discrete es
    → waiting (delete Key-discrete k es) + count_of (get Key-discrete k es) ≡ waiting es
unfolding delete get
waiting-delete k [] u = omega arith
waiting-delete k ((j, b) ∷ es) u =
    ground (arith, waiting-delete k es u.1, delete_absent Key-discrete k es)

pub record_violation-accounted :
    (now c : ℕ) (ip rule : String) (signal : ViolationSignal) (s : Aggregator)
    → accounted (record_violation now c ip rule signal s) ≡ accounted s + 1
unfolding record_violation
record_violation-accounted now c ip rule signal s =
    elim (Option-cases (get Key-discrete (c, rule) s.aggregates)) [
      | inl e ↦ rw e (
          omega (
            arith,
            waiting-set (c, rule) (gathered now ip signal none) s.aggregates,
            ap count_of e,
          ))
      | inr (a, e) ↦ rw e (
          omega (
            arith,
            waiting-set (c, rule) (gathered now ip signal (some a)) s.aggregates,
            ap count_of e,
          ))
    ]

-- Entries that stand in the map.
abbrev pub Stands : Entries → (ℕ × String) × Aggregate → Type 0
Stands m e = get Key-discrete e.0 m ≡ some e.1

pub absent-differs :
    (k : ℕ × String) (es : Entries) → get Key-discrete k es ≡ none → All (λ e. e.0 ≢ k) es
unfolding get
absent-differs k [] h = tt
absent-differs k ((j, b) ∷ es) h = elim (Key-discrete j k) [
  | yes p ↦ absurd (ground (arith, h))
  | no n ↦ (n, absent-differs k es (ground arith))
]

pub get-head :
    (k j : ℕ × String) (a : Aggregate) (m : Entries)
    → get Key-discrete j ((k, a) ∷ m) ≡ ite (Key-discrete k j) (some a) (get Key-discrete j m)
unfolding get
get-head k j a m = refl

pub Unique-Stands : (m : Entries) → Unique Key-discrete m → All (Stands m) m
Unique-Stands [] u = tt
Unique-Stands ((k, a) ∷ m) u =
    (rw (get-head k k a m) (ground arith), both m (absent-differs k m u.0) (Unique-Stands m u.1))
  where
    both : (es : Entries) → All (λ e. e.0 ≢ k) es → All (Stands m) es → All (Stands ((k, a) ∷ m)) es
    both [] d h = tt
    both (e ∷ es) d h = (rw (get-head k e.0 a m) (ground (arith, d.0, h.0)), both es d.1 h.1)

pub still_stand :
    (k : ℕ × String) (m es : Entries)
    → All (λ e. e.0 ≢ k) es
    → All (Stands m) es
    → All (Stands (delete Key-discrete k m)) es
still_stand k m [] d h = tt
still_stand k m (e ∷ es) d h =
    (rw (get-delete Key-discrete e.0 k m) (ground (arith, d.0, h.0)), still_stand k m es d.1 h.1)

pub flush-accounted :
    (e : (ℕ × String) × Aggregate) (s : Aggregator)
    → Unique Key-discrete s.aggregates
    → Stands s.aggregates e
    → accounted (flush e s) ≡ accounted s
unfolding flush
flush-accounted e s u h = omega (
  arith,
  waiting-delete e.0 s.aggregates u,
  ap count_of h,
  reported-append s.reports (report_of e ∷ []),
)

-- What a loop over entries keeps.
abbrev pub Kept : Aggregator → Aggregator → Type 0
Kept s x = (accounted x ≡ accounted s) × Unique Key-discrete x.aggregates

pub flush_each-Kept :
    (is_due : (ℕ × String) × Aggregate → Bool) (es : Entries) (s : Aggregator)
    → Unique Key-discrete s.aggregates
    → Unique Key-discrete es
    → All (Stands s.aggregates) es
    → Kept s (flush_each is_due es s)
unfolding flush_each
flush_each-Kept is_due [] s u w h = (refl, u)
flush_each-Kept is_due (e ∷ es) s u w h =
    if_both (λ x. Kept s (flush_each is_due es x)) (is_due e) (flush e s) s
      (λ due.
        let rest =
          flush_each-Kept is_due es (flush e s) (delete-Unique Key-discrete e.0 s.aggregates u) w.1
            (still_stand e.0 s.aggregates es (absent-differs e.0 es w.0) h.1) in
        (rest.0 ∙ flush-accounted e s u h.0, rest.1))
      (λ not_due. flush_each-Kept is_due es s u w.1 h.1)

pub flush_all-empty :
    (m : Entries) (reports : List Report)
    → Unique Key-discrete m
    → (flush_each (λ e. true) m (record { aggregates = m; reports = reports })).aggregates ≡ []
unfolding flush_each flush delete
flush_all-empty [] reports u = refl
flush_all-empty ((k, a) ∷ m) reports u =
    elim (Key-discrete k k)
      as (λ d.
        (flush_each (λ e. true) m
          (record {
            aggregates = ite d (delete Key-discrete k m) ((k, a) ∷ delete Key-discrete k m);
            reports = reports ++ (report_of (k, a) ∷ []);
          })).aggregates
        ≡ []) [
          | yes p ↦
              rw (delete_absent Key-discrete k m u.0)
                (flush_all-empty m (reports ++ (report_of (k, a) ∷ [])) u.1)
          | no n ↦ absurd (n refl)
        ]
