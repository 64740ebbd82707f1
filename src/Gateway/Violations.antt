-- ===== src/Gateway/Violations.antt =====
-- server-game/src/gateway/rate-limit-violations.ts: the violations of the rate limits are gathered, one report for a
-- connection and a rule in an interval. The key, which the source writes as a text, is a pair; the fields that a report
-- adds to the detail of a signal, in place of fields of the same name, are fields of the report.
pub mod Entries
pub mod Laws
use sw_itch_remake.Base.{
  ℕ, ◌+◌, ◌-◌, String, Bool, true, false, Option, none, some, List, [], ◌∷◌, ◌++◌, ◌==◌, ltb, leb,
  if◌then◌else◌, ℕ_discrete, String_discrete,
}
use sw_itch_remake.Base.Maps.{get, set, delete}
use sw_itch_remake.Types.{ActorId}

pub data ViolationKind : Type 0 where
  rate_limit bad_length bad_version bad_state spectator_input unknown_message frame_too_big :
      ViolationKind

pub data Severity : Type 0 where
  low medium high : Severity

pub data DetailValue : Type 0 where
  number : ℕ → DetailValue
  text : String → DetailValue

-- No detail is an empty one.
pub record ViolationSignal : Type 0 where
  pub kind : ViolationKind
  pub user_id : ActorId
  pub room_id : Option String
  pub tick : Option ℕ
  pub severity : Severity
  pub rule_version : ℕ
  pub detail : List (String × DetailValue)

pub record Aggregate : Type 0 where
  pub signal : ViolationSignal
  pub count : ℕ
  pub first_at : ℕ
  pub last_at : ℕ
  pub severity : Severity

pub record Report : Type 0 where
  pub signal : ViolationSignal
  pub subject : ℕ
  pub rule : String
  pub count : ℕ
  pub duration_ms : ℕ

pub record Aggregator : Type 0 where
  pub aggregates : List ((ℕ × String) × Aggregate)
  -- What the sink has been given.
  pub reports : List Report

unfoldable pub Key-discrete : Discrete (ℕ × String)
Key-discrete = hlevel (ℕ_discrete, String_discrete)

abbrev pub severity_rank : Severity → ℕ
severity_rank low = 0
severity_rank medium = 1
severity_rank high = 2

abbrev pub with_ip : String → ViolationSignal → ViolationSignal
with_ip ip signal = record signal { detail = set String_discrete "ip" (text ip) signal.detail }

abbrev pub first : ℕ → String → ViolationSignal → Aggregate
first now ip signal = record {
  signal = with_ip ip signal;
  count = 1;
  first_at = now;
  last_at = now;
  severity = signal.severity;
}

abbrev pub worse : Severity → Severity → Severity
worse a b = if ltb (severity_rank a) (severity_rank b) then b else a

abbrev pub added : ℕ → String → ViolationSignal → Aggregate → Aggregate
added now ip signal a = record a {
  signal = with_ip ip signal;
  count = a.count + 1;
  last_at = now;
  severity = worse a.severity signal.severity;
}

abbrev pub gathered : ℕ → String → ViolationSignal → Option Aggregate → Aggregate
gathered now ip signal none = first now ip signal
gathered now ip signal (some a) = added now ip signal a

-- `record`.
unfoldable pub record_violation :
    ℕ → ℕ → String → String → ViolationSignal → Aggregator → Aggregator
record_violation now connection_id ip rule signal s =
    let old = get Key-discrete (connection_id, rule) s.aggregates in
    record s {
      aggregates = set Key-discrete (connection_id, rule) (gathered now ip signal old) s.aggregates;
    }

abbrev pub report_of : (ℕ × String) × Aggregate → Report
report_of ((connection_id, rule), a) = record {
  signal = record a.signal { kind = rate_limit; severity = a.severity };
  subject = connection_id;
  rule = rule;
  count = a.count;
  duration_ms = a.last_at - a.first_at;
}

-- `#flush`.
unfoldable pub flush : (ℕ × String) × Aggregate → Aggregator → Aggregator
flush entry s = record {
  aggregates = delete Key-discrete entry.0 s.aggregates;
  reports = s.reports ++ (report_of entry ∷ []);
}

-- The loops over the entries, each with its test.
unfoldable pub flush_each :
    ((ℕ × String) × Aggregate → Bool) → List ((ℕ × String) × Aggregate) → Aggregator → Aggregator
unfolding flush
flush_each is_due [] s = s
flush_each is_due (entry ∷ entries) s =
    flush_each is_due entries (if is_due entry then flush entry s else s)

abbrev pub is_ready : ℕ → ℕ → (ℕ × String) × Aggregate → Bool
is_ready now interval_ms entry = leb interval_ms (now - entry.1.first_at)

unfoldable pub flush_ready : ℕ → ℕ → Aggregator → Aggregator
unfolding flush_each
flush_ready now interval_ms s = flush_each (is_ready now interval_ms) s.aggregates s

abbrev pub is_of : ℕ → (ℕ × String) × Aggregate → Bool
is_of connection_id entry = entry.0.0 == connection_id

unfoldable pub flush_connection : ℕ → Aggregator → Aggregator
unfolding flush_each
flush_connection connection_id s = flush_each (is_of connection_id) s.aggregates s

unfoldable pub flush_all : Aggregator → Aggregator
unfolding flush_each
flush_all s = flush_each (λ entry. true) s.aggregates s
