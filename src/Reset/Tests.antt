-- ===== src/Reset/Tests.antt =====
-- Runs of control-plane/lib/codex/quota.ts on a concrete account and concrete answers.
use papi.Common.{arith, ◌≡◌, refl, [], ◌∷◌, none, true, false}
use papi.Common.Number.{Number}
use papi.Common.Text.{Text, codes, same, decimal, decimal_from}
use papi.Common.Json.{Json, str, obj, get, to_number, Fields, field, end}
use papi.Common.Result.{ok, err, api}
use papi.Reset.Table.{
  World, Operation, Status, pending, succeeded, unknown, status_eq, load_by_key, expire_pending,
  find_last, is_codex,
}
use papi.Reset.Checks.{
  require_available_credit, credit_expiry, expiry_unusable, validate_idempotency_key, object_data,
}
use papi.Common.Audit.{audit}
use papi.Reset.Actions.{begin, or_same, refuse_active, prepare, update_after_dispatch}
use papi.Reset.Flow.{
  Answer, Inputs, reset, finish, after_readings, readings, after_prepare, success_update, or_settle,
  or_refuse, unless_saved,
}
use papi.Reset.Evolution.{Change}
use papi.Reset.Steps.{Reach, here, next, expire}
use papi.Reset.Invariant.{Inv, Reach-Inv}
use papi.Reset.Counts.{count}
use papi.Reset.Asked.{asks}
use papi.Reset.Replay.{reset-replay}
use papi.Reset.Once.{Spent, reset-Spent, reset_once}
use papi.Reset.Outcomes.{verdict, finish-verdict}

abbrev never : Text → Number
never s = Number.num 5000

abbrev credits : Fields
credits =
    field (codes "available_count") (Json.num 2)
      (field (codes "next_expires_at") (str (codes "later")) end)

abbrev answer : Fields → Answer
answer fs = ok (record { content = obj fs; warning_code = none })

abbrev world : World
world = record {
  operations = [];
  accounts = record { id = "acc"; name = "main"; adapter = "openai-codex" } ∷ [];
  events = [];
}

abbrev inputs : Inputs
inputs = record {
  account = "acc";
  key = codes "key-0000001";
  confirmed = true;
  usage = answer end;
  credits = answer credits;
  consume = answer end;
  id = "op";
  request_id = "req";
  looked_at = 10;
  checked_at = 11;
  prepared_at = 12;
  finished_at = 13;
}

-- The request above spends a credit.
spends : asks (reset never world inputs).calls ≡ true
unfolding reset validate_idempotency_key load_by_key expire_pending after_readings readings
    object_data require_available_credit to_number get same after_prepare prepare find_last is_codex
    success_update audit decimal decimal_from begin or_same refuse_active update_after_dispatch
    credit_expiry expiry_unusable finish or_refuse unless_saved status_eq or_settle
spends = refl

reset_once_example :
    asks (reset never (reset never world inputs).world (record inputs { looked_at = 9000 })).calls
    ≡ false
reset_once_example =
    reset_once never world (reset never world inputs).world inputs
      (record inputs { looked_at = 9000 }) spends here refl refl

reset-Spent_example : Spent world inputs (reset never world inputs)
reset-Spent_example = reset-Spent never world inputs spends

empty : Inv world
unfolding same status_eq count
empty = record {
  one_active = λ account. omega arith;
  one_per_key = λ account key. omega arith;
  shapes = tt;
}

Reach-Inv_example : Inv (record world { operations = expire_pending 99 "acc" none [] })
Reach-Inv_example = Reach-Inv (next here (expire 99 "acc" none)) empty

abbrev row : Status → Operation
row status = record {
  id = "op";
  account_id = "acc";
  idempotency_key = codes "key-0000001";
  status = status;
  lease_expires_at = none;
  preflight = record { quota = end; reset_credits = credits };
  upstream_request_id = "req";
  result_summary = end;
  warning_code = none;
  resolution_source = none;
  resolution_note = none;
  resolved_at = none;
  created_at = 12;
  completed_at = none;
}

abbrev with_row : Status → World
with_row status = record world { operations = row status ∷ [] }

swept :
    Reach
      (with_row succeeded)
      (record world { operations = expire_pending 99 "acc" none (row succeeded ∷ []) })
swept = next here (expire 99 "acc" none)

idle : Reach (with_row unknown) (with_row unknown)
idle = here

reset-replay_example :
    ((reset never (with_row unknown) inputs).calls ≡ [])
    × ((p : Operation) × ((reset never (with_row unknown) inputs).result ≡ ok p)
        × Change (row unknown) p)
unfolding load_by_key same validate_idempotency_key
reset-replay_example = reset-replay never inputs (row unknown) idle refl refl refl

finish-verdict_example :
    (p : Operation) × ((finish (with_row pending) "op" (err (api 504 "timeout")) 20).result ≡ ok p)
    × (p.status ≡ verdict (err (api 504 "timeout")))
    × (p.id ≡ (row pending).id)
unfolding status_eq
finish-verdict_example =
    finish-verdict (with_row pending) "op" (err (api 504 "timeout")) 20 (row pending) refl
