-- ===== src/Gateway/Violations/Laws.antt =====
-- rate-limit-violations.ts (server-game/src/gateway): every violation is reported, and once.
use sw_itch_remake.Base.{ℕ, ◌+◌, ◌≡◌, ap, String, Bool, true, List, [], ◌∷◌, arith}
use sw_itch_remake.Base.Maps.{Unique, set-Unique}
use sw_itch_remake.Gateway.Violations.{
  ViolationSignal, Aggregate, Aggregator, Key-discrete, record_violation, flush_each, is_ready,
  is_of, flush_ready, flush_connection, flush_all,
}
use sw_itch_remake.Gateway.Violations.Entries.{
  waiting, reported, accounted, record_violation-accounted, Unique-Stands, Kept, flush_each-Kept,
  flush_all-empty,
}

pub data Call : Type 0 where
  records : ℕ → ℕ → String → String → ViolationSignal → Call
  flushes_ready : ℕ → ℕ → Call
  flushes_connection : ℕ → Call
  flushes_all : Call

unfoldable pub step : Aggregator → Call → Aggregator
step s (records now connection_id ip rule signal) =
    record_violation now connection_id ip rule signal s
step s (flushes_ready now interval_ms) = flush_ready now interval_ms s
step s (flushes_connection connection_id) = flush_connection connection_id s
step s flushes_all = flush_all s

unfoldable pub run : Aggregator → List Call → Aggregator
run s [] = s
run s (c ∷ cs) = run (step s c) cs

abbrev pub recorded : List Call → ℕ
recorded [] = 0
recorded (records now c ip rule signal ∷ cs) = 1 + recorded cs
recorded (flushes_ready now interval_ms ∷ cs) = recorded cs
recorded (flushes_connection c ∷ cs) = recorded cs
recorded (flushes_all ∷ cs) = recorded cs

loop-Kept :
    (is_due : (ℕ × String) × Aggregate → Bool) (s : Aggregator)
    → Unique Key-discrete s.aggregates
    → Kept s (flush_each is_due s.aggregates s)
loop-Kept is_due s u = flush_each-Kept is_due s.aggregates s u u (Unique-Stands s.aggregates u)

run-accounted :
    (s : Aggregator) (cs : List Call)
    → Unique Key-discrete s.aggregates
    → (accounted (run s cs) ≡ accounted s + recorded cs) × Unique Key-discrete (run s cs).aggregates
unfolding run step record_violation flush_ready flush_connection flush_all
run-accounted s [] u = (omega arith, u)
run-accounted s (records now c ip rule signal ∷ cs) u =
    let rest =
      run-accounted (record_violation now c ip rule signal s) cs
        (set-Unique Key-discrete (c, rule) _ s.aggregates u) in
    (omega (arith, rest.0, record_violation-accounted now c ip rule signal s), rest.1)
run-accounted s (flushes_ready now interval_ms ∷ cs) u =
    let kept = loop-Kept (is_ready now interval_ms) s u in
    let rest = run-accounted (flush_ready now interval_ms s) cs kept.1 in
    (omega (arith, rest.0, kept.0), rest.1)
run-accounted s (flushes_connection c ∷ cs) u =
    let kept = loop-Kept (is_of c) s u in
    let rest = run-accounted (flush_connection c s) cs kept.1 in
    (omega (arith, rest.0, kept.0), rest.1)
run-accounted s (flushes_all ∷ cs) u =
    let kept = loop-Kept (λ e. true) s u in
    let rest = run-accounted (flush_all s) cs kept.1 in (omega (arith, rest.0, kept.0), rest.1)

abbrev pub empty : Aggregator
empty = record { aggregates = []; reports = [] }

-- After any calls, the violations that were recorded are those in the reports and those that still wait, each counted
-- once; and a flush of everything leaves none waiting, so that the reports then account for every one.
pub run-reported :
    (cs : List Call)
    → (reported (run empty cs).reports + waiting (run empty cs).aggregates ≡ recorded cs)
      × (reported (flush_all (run empty cs)).reports ≡ recorded cs)
unfolding flush_all
run-reported cs =
    let s = run empty cs in
    let (all, unique) = run-accounted empty cs tt in
    let kept = loop-Kept (λ e. true) s unique in
    let none_left = flush_all-empty s.aggregates s.reports unique in
    (omega (arith, all), omega (arith, all, kept.0, ap waiting none_left))
