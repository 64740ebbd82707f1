-- ===== src/Gateway/Tests.antt =====
-- Runs and instances of server-game/src/gateway.
use sw_itch_remake.Base.{
  ℕ, ◌+◌, ◌≡◌, refl, ap, String, String_discrete, ℕ_discrete, true, false, ◌&&◌, Option, none, some,
  List, [], ◌∷◌, arith, all, if◌then◌else◌,
}
use sw_itch_remake.Base.Maps.{get, set, delete, Unique}
use sw_itch_remake.Types.{account, guest}
use sw_itch_remake.Gateway.Connections
use sw_itch_remake.Gateway.Connections.{
  ConnectionLimits, ConnectionRecord, Call, opens, authenticates, closes,
}
use sw_itch_remake.Gateway.Connections.Invariant.{Inv}
use sw_itch_remake.Gateway.Connections.Histories.{run-Inv, run-one_connection_per_user}
use sw_itch_remake.Gateway.Tickets.{
  SeatReservation, TicketStore, issued, issue, draw, consume_when, consume_found, sweep_expired,
}
use sw_itch_remake.Gateway.Tickets.Laws.{consume_twice, consume-issue}
use sw_itch_remake.Gateway.RateLimit
use sw_itch_remake.Gateway.RateLimit.{
  RateSubject, RateDecision, connection, ip, user, Key, Key-discrete, ip_subject,
  connection_subject, Bucket, RateLimiter, default_policy, bucket_for, check_keys, cooldown, sweep,
  subject_keys, is_cooling, start_cooling, clear, new,
}
use sw_itch_remake.Gateway.RateLimit.Sweeping
use sw_itch_remake.Gateway.RateLimit.Laws.{
  check_keys-allowed, check_keys-seen, cooldown_refuses, has_room, is_among, seen, Distinct,
}
use sw_itch_remake.Gateway.Violations.{ViolationSignal, rate_limit, low, high, flush_all}
use sw_itch_remake.Gateway.Violations
use sw_itch_remake.Gateway.Violations.Entries.{waiting, reported}
use sw_itch_remake.Gateway.Violations.Laws.{records, flushes_connection, empty, run-reported}
use sw_itch_remake.Gateway.Violations.Laws

abbrev limits : ConnectionLimits
limits = record {
  max_connections = 3;
  max_unauthenticated_per_ip = 2;
  max_authenticated_per_ip = 1;
}

-- Three connections ask for the address, and the third is refused; one signs in twice.
abbrev calls : List Call
calls =
    opens "a"
    ∷ opens "a"
    ∷ opens "a"
    ∷ authenticates 1 (account 7)
    ∷ authenticates 2 (account 7)
    ∷ closes 2
    ∷ []

run-Inv_example : Inv (Connections.run (Connections.new limits) calls)
run-Inv_example = run-Inv limits calls

abbrev signed_in : ConnectionRecord
signed_in = record { id = 1; ip = "a"; user_id = some (account 7) }

signed_in-found :
    get ℕ_discrete 1 (Connections.run (Connections.new limits) calls).connections ≡ some signed_in
unfolding Connections.run Connections.new Connections.step Connections.open_connection
    Connections.can_open Connections.accept Connections.authenticate
    Connections.can_authenticate_record Connections.bind_user Connections.decrement
    Connections.close Connections.drop_record get set delete String_discrete ℕ_discrete
signed_in-found = ground arith

run-one_connection_per_user_example : ◌≡◌ {A = ℕ} 1 1
run-one_connection_per_user_example =
    run-one_connection_per_user limits calls (account 7) 1 1 signed_in signed_in signed_in-found
      signed_in-found refl refl

-- A hash for tests: the ticket itself.
abbrev plain : String → String
plain t = t

abbrev reservation : SeatReservation
reservation = record {
  user_id = guest "g";
  nickname = "nick";
  lobby_stats = none;
  room_id = "r";
  server_id = "s";
  issued_at = 100;
  expires_at = 5_000;
  resume = false;
}

abbrev store : TicketStore
store = record { reservations = ("t", reservation) ∷ []; next_sweep_at = 9_000 }

abbrev emptied : TicketStore
emptied = record { reservations = []; next_sweep_at = 9_000 }

abbrev admit : SeatReservation → Option ℕ
admit r = some 4

store-consumed : consume_when plain 200 200 "t" admit store ≡ (emptied, some 4)
unfolding consume_when consume_found sweep_expired get delete String_discrete
store-consumed = refl

consume_twice_example : (consume_when plain 300 300 "t" admit emptied).1 ≡ none
consume_twice_example =
    consume_twice plain 200 200 300 300 "t" admit admit store emptied 4 store-consumed

issued-store :
    issue plain 150 150 reservation emptied ("t" ∷ [])
    ≡ issued (record { ticket = "t"; expires_at = 5_000 }) store
unfolding issue draw sweep_expired get set String_discrete
issued-store = refl

consume-issue_example : (consume_when plain 200 200 "t" admit store).1 ≡ some 4
consume-issue_example =
    consume-issue plain 150 150 200 200 reservation emptied store ("t" ∷ [])
      (record { ticket = "t"; expires_at = 5_000 }) admit issued-store (omega arith) (omega arith)

store-Unique : Unique String_discrete store.reservations
unfolding get
store-Unique = (refl, tt)

unknown_ticket : get String_discrete "u" store.reservations ≡ none
unfolding get String_discrete
unknown_ticket = refl

abbrev visitor : RateSubject
visitor = record { connection_id = 1; ip = "a"; user_id = none }

abbrev by_ip : Key
by_ip = record { rule = "input"; subject = ip_subject "a" }

abbrev by_connection : Key
by_connection = record { rule = "input"; subject = connection_subject 1 }

-- Two calls in window 7, of a rule of one per second.
abbrev bucket : Bucket
bucket = record {
  window = 7;
  expires_at = 9_000;
  count = 2;
  violated = true;
  violation_streak = 1;
  abusive = false;
  abusive_streak = 0;
}

abbrev limiter : RateLimiter
limiter = record { buckets = (by_ip, bucket) ∷ []; cooldowns = []; next_sweep_at = 0 }

abbrev one_second : String → ℕ
one_second rule = 1_000

abbrev ann_here : RateSubject
ann_here = record { connection_id = 1; ip = "a"; user_id = none }

-- Two calls of a rule that allows one per second, and a use with a cooldown.
abbrev busy : List Sweeping.Call
busy =
    Sweeping.checks 7_100 "join" ann_here 1 default_policy
    ∷ Sweeping.checks 7_200 "join" ann_here 1 default_policy
    ∷ Sweeping.cools 7_300 "chat" ann_here 1_000 (ip ∷ [])
    ∷ []

abbrev keys : List Key
keys = by_connection ∷ by_ip ∷ []

keys-Distinct : Distinct 7 1_000 1 default_policy keys
keys-Distinct = ((λ e. let q = ap (λ k. k.subject) e in cc, tt), (tt, tt))

check_keys-allowed_example :
    (check_keys 7 1_000 1 default_policy keys limiter.buckets clear).1.allowed
    ≡ (true && all (has_room 7 1_000 1 default_policy limiter.buckets) keys)
check_keys-allowed_example =
    check_keys-allowed 7 1_000 1 default_policy keys limiter.buckets clear keys-Distinct

check_keys-seen_example :
    seen 7
      (get Key-discrete by_ip (check_keys 7 1_000 1 default_policy keys limiter.buckets clear).0)
    ≡ seen 7 (get Key-discrete by_ip limiter.buckets) + (if is_among by_ip keys then 1 else 0)
check_keys-seen_example =
    check_keys-seen 7 1_000 1 default_policy by_ip keys limiter.buckets clear keys-Distinct

emoji_allowed :
    (cooldown 100 "input" visitor 2_000 (connection ∷ ip ∷ user ∷ []) RateLimit.new).1.allowed
    ≡ true
unfolding cooldown is_cooling sweep subject_keys RateLimit.new get
emoji_allowed = refl

emoji_key : is_among by_ip (subject_keys "input" visitor (connection ∷ ip ∷ user ∷ [])) ≡ true
unfolding subject_keys
emoji_key = ground (arith)

ip_key : is_among by_ip (subject_keys "input" visitor (ip ∷ [])) ≡ true
unfolding subject_keys
ip_key = ground (arith)

cooldown_refuses_example :
    (cooldown 1_000 "input" visitor 5
      (ip ∷ [])
      (cooldown 100 "input" visitor 2_000 (connection ∷ ip ∷ user ∷ []) RateLimit.new).0).1.allowed
    ≡ false
cooldown_refuses_example =
    cooldown_refuses 100 1_000 2_000 5 "input" "input" visitor visitor (connection ∷ ip ∷ user ∷ [])
      (ip ∷ []) RateLimit.new by_ip emoji_allowed emoji_key ip_key (omega arith)

-- Two violations of one rule and one of another, and a connection that closes.
abbrev spam : ViolationSignal
spam = record {
  kind = rate_limit;
  user_id = account 7;
  room_id = none;
  tick = none;
  severity = low;
  rule_version = 1;
  detail = [];
}

abbrev spamming : List Violations.Laws.Call
spamming =
    records 10 1 "10.0.0.1" "input" spam
    ∷ records 12 1 "10.0.0.1" "input" (record spam { severity = high })
    ∷ flushes_connection 1
    ∷ records 20 2 "10.0.0.2" "json" spam
    ∷ []

run-reported_example :
    (reported (Violations.Laws.run empty spamming).reports
        + waiting (Violations.Laws.run empty spamming).aggregates
      ≡ 3)
    × (reported (flush_all (Violations.Laws.run empty spamming)).reports ≡ 3)
run-reported_example = run-reported spamming
