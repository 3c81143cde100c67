-- ===== src/Billing/Events.antt =====
-- storeRequestEvents of control-plane/lib/request-events.ts: the transaction that stores a batch of
-- usage events of a gateway, sums the spend of each key and day, and debits the teams' balances.
-- An insert that breaks a constraint of the tables fails, and the transaction is rolled back: the
-- result has no ledger then. Row numbers are fresh; the numbers that the sequence skips are not
-- modelled.
use papi.Common.{
  ℕ, suc, ◌+◌, ◌*◌, ◌/◌, String, List, [], ◌∷◌, ◌++◌, Option, none, some, Bool, true, false, not,
  ◌&&◌, if◌then◌else◌, ltb, ◌==◌, str_eq, select, any, find, update_where, length,
}
use papi.Common.Int.{pos, ◌-ℤ◌, ltb_ℤ}
use papi.Common.Result.{Result, ok, plain, ◌>>=◌, ◌>>◌, guard}
use papi.Billing.Tables.{
  AttemptOutcome, success, rate_limited, upstream_error, saturated, canceled, rejected,
  budget_exceeded, concurrency_limited, RequestAttempt, RequestEvent, EventRow, AttemptRow, Spend,
  VirtualKey, Team, Ledger,
}

-- `received_at < now() - interval '30 days'`, in milliseconds.
unfoldable pub is_stale : ℕ → EventRow → Bool
is_stale now r = ltb (r.received_at + 30 * 86400000) now

-- The attempts of a deleted event are deleted with it.
unfoldable pub sweep : ℕ → Ledger → Ledger
unfolding is_stale
sweep now l = record l {
  events = select (λ r. not (is_stale now r)) l.events;
  attempts =
      select (λ a. not (any (λ r. is_stale now r && r.id == a.request_event_id) l.events))
        l.attempts;
}

-- The rows that `UNIQUE (gateway_id, request_id)` sets against a new one.
abbrev pub same_request : String → String → EventRow → Bool
same_request gateway request r = str_eq r.gateway_id gateway && str_eq r.event.request_id request

-- `event.virtual_key_id || null`
abbrev pub or_null : String → Option String
or_null s = if str_eq s "" then none else some s

-- The foreign key of request_events.virtual_key_id.
unfoldable pub key_exists : List VirtualKey → Option String → Bool
key_exists keys none = true
key_exists keys (some k) = any (λ v. str_eq v.id k) keys

-- The CHECK on request_event_attempts.outcome.
unfoldable pub is_listed : AttemptOutcome → Bool
is_listed success = true
is_listed rate_limited = true
is_listed upstream_error = true
is_listed saturated = true
is_listed canceled = true
is_listed rejected = true
is_listed budget_exceeded = false
is_listed concurrency_limited = false

unfoldable pub insert_attempts :
    ℕ → ℕ → List RequestAttempt → List AttemptRow → Result (List AttemptRow)
unfolding is_listed
insert_attempts id position [] rows = ok rows
insert_attempts id position (a ∷ attempts) rows = do
  guard (is_listed a.outcome) (plain "request_event_attempts_outcome_check")
  insert_attempts id (suc position) attempts
      (rows ++ record { request_event_id = id; position = position; attempt = a } ∷ [])

unfoldable pub event_row : ℕ → ℕ → String → RequestEvent → EventRow
event_row id now gateway e = record {
  id = id;
  gateway_id = gateway;
  received_at = now;
  key_id = or_null e.virtual_key_id;
  event = e;
}

unfoldable pub insert_new : ℕ → String → RequestEvent → Ledger → Result (Option ℕ × Ledger)
unfolding key_exists insert_attempts event_row
insert_new now gateway e l = do
  guard (key_exists l.keys (or_null e.virtual_key_id)) (plain "request_events_virtual_key_id_fkey")
  rows ← insert_attempts l.next_id 0 e.attempts l.attempts
  ok (
    some l.next_id,
    record l {
      events = l.events ++ event_row l.next_id now gateway e ∷ [];
      next_id = suc l.next_id;
      attempts = rows;
    },
  )

-- `INSERT … ON CONFLICT (gateway_id, request_id) DO NOTHING RETURNING id`, and the attempts.
unfoldable pub insert_event : ℕ → String → RequestEvent → Ledger → Result (Option ℕ × Ledger)
unfolding insert_new
insert_event now gateway e l =
    if any (same_request gateway e.request_id) l.events
    then ok (none, l)
    else insert_new now gateway e l

abbrev pub push_id : Option ℕ → List ℕ → List ℕ
push_id none ids = ids
push_id (some id) ids = id ∷ ids

unfoldable pub insert_events : ℕ → String → List RequestEvent → Ledger → Result (List ℕ × Ledger)
unfolding insert_event
insert_events now gateway [] l = ok ([], l)
insert_events now gateway (e ∷ events) l = do
  (id, next) ← insert_event now gateway e l
  (ids, last) ← insert_events now gateway events next
  ok (push_id id ids, last)

-- `(occurred_at AT TIME ZONE 'UTC')::date`, as a number of days.
abbrev pub day_of : ℕ → ℕ
day_of t = t / 86400000

abbrev pub same_day : Spend → Spend → Bool
same_day s t = str_eq s.virtual_key_id t.virtual_key_id && s.day == t.day

abbrev pub merge_spend : Spend → Spend → Spend
merge_spend s t = record t {
  cost_usd = t.cost_usd + s.cost_usd;
  tokens_in = t.tokens_in + s.tokens_in;
  tokens_out = t.tokens_out + s.tokens_out;
  requests = t.requests + s.requests;
}

-- `ON CONFLICT (virtual_key_id, day) DO UPDATE`
unfoldable pub add_spend : Spend → List Spend → List Spend
add_spend s [] = s ∷ []
add_spend s (t ∷ table) =
    let rest = add_spend s table in if same_day s t then merge_spend s t ∷ table else t ∷ rest

unfoldable pub row_spend : String → EventRow → Spend
row_spend key r = record {
  virtual_key_id = key;
  day = day_of r.event.occurred_at;
  cost_usd = r.event.cost_usd;
  tokens_in = r.event.input_tokens;
  tokens_out = r.event.output_tokens;
  requests = 1;
}

unfoldable pub spend_if : Option String → Bool → EventRow → Option Spend
unfolding row_spend
spend_if none is_success r = none
spend_if (some key) is_success r = if is_success then some (row_spend key r) else none

-- `virtual_key_id IS NOT NULL AND success`
unfoldable pub spend_of : EventRow → Option Spend
unfolding spend_if
spend_of r = spend_if r.key_id r.event.succeeded r

unfoldable pub add_optional : Option Spend → List Spend → List Spend
add_optional none table = table
add_optional (some s) table = add_spend s table

-- `GROUP BY virtual_key_id, (occurred_at …)::date` with the sums of each group.
unfoldable pub group_spend : List EventRow → List Spend
unfolding spend_of add_optional
group_spend [] = []
group_spend (r ∷ rows) = add_optional (spend_of r) (group_spend rows)

unfoldable pub upsert_spend : List Spend → List Spend → List Spend
unfolding add_spend
upsert_spend [] table = table
upsert_spend (s ∷ groups) table = add_spend s (upsert_spend groups table)

unfoldable pub team_of : List VirtualKey → Option String → Option String
team_of keys none = none
team_of keys (some k) = elim (find (λ v. str_eq v.id k) keys) [ none ↦ none | some v ↦ v.team_id ]

abbrev pub is_some_of : String → Option String → Bool
is_some_of team none = false
is_some_of team (some t) = str_eq t team

-- A successful row whose key belongs to the team.
unfoldable pub charges : List VirtualKey → String → EventRow → Bool
unfolding team_of
charges keys team r = r.event.succeeded && is_some_of team (team_of keys r.key_id)

-- `SUM(re.cost_usd)` of the rows of a team.
unfoldable pub spent : List VirtualKey → String → List EventRow → ℕ
unfolding charges
spent keys team [] = 0
spent keys team (r ∷ rows) =
    (if charges keys team r then r.event.cost_usd else 0) + spent keys team rows

unfoldable pub debit : List VirtualKey → List EventRow → List Team → List Team
unfolding charges spent
debit keys rows teams =
    update_where (λ t. any (charges keys t.id) rows && ltb_ℤ (pos 0) t.balance_usd)
      (λ t. record t { balance_usd = t.balance_usd -ℤ pos (spent keys t.id rows) }) teams

-- `WHERE id = ANY(ids)`
abbrev pub with_ids : List ℕ → List EventRow → List EventRow
with_ids ids rows = select (λ r. any (λ i. i == r.id) ids) rows

unfoldable pub charge : List ℕ → Ledger → Ledger
unfolding upsert_spend group_spend debit
charge ids l =
    let rows = with_ids ids l.events in
    record l { spend = upsert_spend (group_spend rows) l.spend; teams = debit l.keys rows l.teams }

-- `if (insertedIds.length > 0)`
unfoldable pub charge_inserted : List ℕ → Ledger → Ledger
charge_inserted [] l = l
charge_inserted (i ∷ ids) l = charge (i ∷ ids) l

unfoldable pub store_request_events : ℕ → String → List RequestEvent → Ledger → Result (ℕ × Ledger)
unfolding sweep insert_events charge_inserted
store_request_events now gateway events l = do
  (ids, next) ← insert_events now gateway events (sweep now l)
  ok (length ids, charge_inserted ids next)
