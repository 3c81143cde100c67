-- ===== src/Reset/Flow.antt =====
-- resetCodexQuota, reconcileCodexQuotaReset and refreshCodexQuota of
-- control-plane/lib/codex/quota.ts from their first to their last step, with the provider's answers
-- and the clock's readings given, and the calls to the provider recorded.
use papi.Common.{ℕ, String, List, [], ◌∷◌, Option, none, some, Bool, true, not, if◌then◌else◌}
use papi.Common.Number.{Number}
use papi.Common.Text.{Text, codes}
use papi.Common.Json.{Json, bool, str, obj, Fields, end, field}
use papi.Common.Result.{Result, ok, err, Thrown, api, ◌>>=◌, guard}
use papi.Reset.Table.{
  succeeded, failed, unknown, status_eq, Operation, World, expire_pending, load_by_key, load_by_id,
}
use papi.Reset.Checks.{
  validate_idempotency_key, object_data, require_available_credit, conclusive_reset_failure,
  safe_error_code, reset_was_consumed,
}
use papi.Reset.Actions.{
  Prepared, prepare, update_after_dispatch, reconcile_begin, reconcile_failed, reconcile_commit,
}

pub data Kind : Type 0 where
  read_usage list_reset_credits consume_reset_credit : Kind

pub record Reply : Type 0 where
  pub content : Json
  pub warning_code : Option String

-- What dispatchProviderOperation answers or throws.
abbrev pub Answer : Type 0
Answer = Result Reply

abbrev pub first_warning : Option String → Option String → Option String
first_warning (some a) b = some a
first_warning none b = b

-- The two readings that precede a reset, and the calls made for them.
unfoldable pub readings : Answer → Answer → List Kind × Result (Fields × Fields × Option String)
readings (err e) credits = (read_usage ∷ [], err e)
readings (ok usage) credits = (
  read_usage ∷ list_reset_credits ∷ [],
  do
    reply ← credits
    quota ← object_data usage.content "codex_quota_contract_changed"
    reset_credits ← object_data reply.content "codex_quota_contract_changed"
    ok (quota, reset_credits, first_warning usage.warning_code reply.warning_code),
)

pub record Inputs : Type 0 where
  pub account : String
  pub key : Text
  pub confirmed : Bool
  -- The answers, in the order of the calls.
  pub usage : Answer
  pub credits : Answer
  pub consume : Answer
  -- What the database and the generator make up.
  pub id : String
  pub request_id : String
  -- The clock at each step.
  pub looked_at : ℕ
  pub checked_at : ℕ
  pub prepared_at : ℕ
  pub finished_at : ℕ

pub record Outcome : Type 0 where
  pub world : World
  pub calls : List Kind
  pub result : Result Operation

-- `finish` of a transaction: its rows on success, the rows before it otherwise.
abbrev pub commit : World → List Kind → Result (World × Operation) → Outcome
commit w calls (ok (w', o)) = record { world = w'; calls = calls; result = ok o }
commit w calls (err e) = record { world = w; calls = calls; result = err e }

abbrev pub all_calls : List Kind
all_calls = read_usage ∷ list_reset_credits ∷ consume_reset_credit ∷ []

-- The `catch` after the credit was asked for.
unfoldable pub failure_update : World → String → Thrown → ℕ → Result (World × Operation)
failure_update w id e now =
    let code = safe_error_code e in
    let summary = field (codes "error_code") (str (codes code)) end in
    if conclusive_reset_failure e
    then update_after_dispatch w id failed summary (some code) now
    else update_after_dispatch w id unknown summary (some "quota_reset_outcome_unknown") now

abbrev pub consumed_summary : Fields → Fields
consumed_summary provider =
    field (codes "consumed") (bool true) (field (codes "provider") (obj provider) end)

-- The `try` around the consuming call: the answer must hold an object, and the row must still be
-- pending.
unfoldable pub success_update : World → String → Answer → ℕ → Result (World × Operation)
success_update w id consume now = do
  reply ← consume
  provider ← object_data reply.content "provider_operation_invalid_response"
  update_after_dispatch w id succeeded (consumed_summary provider) reply.warning_code now

unfoldable pub or_settle : World → String → ℕ → Result (World × Operation) → Outcome
or_settle w id now (ok r) = commit w all_calls (ok r)
or_settle w id now (err e) = commit w all_calls (failure_update w id e now)

unfoldable pub finish : World → String → Answer → ℕ → Outcome
finish w id consume now = or_settle w id now (success_update w id consume now)

-- From the middle transaction on.
unfoldable pub after_prepare : World → Inputs → Result Prepared → Outcome
unfolding finish
after_prepare w i (err e) = record {
  world = w;
  calls = read_usage ∷ list_reset_credits ∷ [];
  result = err e;
}
after_prepare w i (ok p) =
    if not p.dispatch
    then record {
      world = p.world;
      calls = read_usage ∷ list_reset_credits ∷ [];
      result = ok p.operation;
    }
    else finish p.world p.operation.id i.consume i.finished_at

-- A check that throws ends the request in the state and with the calls that it has.
unfoldable pub or_refuse : Result (Unit {0}) → World → List Kind → Outcome → Outcome
or_refuse (err e) w calls rest = record { world = w; calls = calls; result = err e }
or_refuse (ok u) w calls rest = rest

unfoldable pub after_readings :
    (Text → Number)
    → World
    → Inputs
    → List Kind × Result (Fields × Fields × Option String)
    → Outcome
after_readings date_parse w i (calls, err e) = record { world = w; calls = calls; result = err e }
after_readings date_parse w i (calls, ok (quota, credits, warning)) =
    or_refuse (require_available_credit date_parse i.checked_at credits) w calls (
      after_prepare w i (
        prepare w i.account i.key i.id i.request_id
          (record { quota = quota; reset_credits = credits }) i.prepared_at))

unfoldable pub unless_saved : World → Option Operation → Outcome → Outcome
unless_saved w (some o) rest = record { world = w; calls = []; result = ok o }
unless_saved w none rest = rest

-- resetCodexQuota, without the refresh that follows a success.
unfoldable pub reset : (Text → Number) → World → Inputs → Outcome
unfolding or_refuse unless_saved
reset date_parse w i =
    let rows = expire_pending i.looked_at i.account (some i.key) w.operations in
    let looked = record w { operations = rows } in
    or_refuse (guard i.confirmed (api 400 "quota_reset_confirmation_required")) w [] (
      or_refuse (validate_idempotency_key i.key) w [] (
        unless_saved looked (load_by_key i.account i.key rows)
          (after_readings date_parse looked i (readings i.usage i.credits))))

-- The rest of reconcileCodexQuotaReset, for a row whose outcome is unknown.
unfoldable pub reconcile_read :
    World → String → Operation → Answer → Answer → ℕ → World × Option Operation
reconcile_read w account o usage credits now = elim (readings usage credits).1 [
  | err e ↦
      let w' = reconcile_failed w o.id (safe_error_code e) in
      (w', load_by_id account o.id w'.operations)
  | ok r ↦ reconcile_commit w account o.id (reset_was_consumed o.preflight r.0 r.1) r.0 r.1 now
]

abbrev pub read_through : World × Option Operation → World × Result (Option Operation)
read_through (w, row) = (w, ok row)

unfoldable pub reconcile :
    World → String → String → Answer → Answer → ℕ → ℕ → World × Result (Option Operation)
unfolding reconcile_read
reconcile w account id usage credits begun_at now = elim (reconcile_begin w account id begun_at) [
  | err e ↦ (w, err e)
  | ok p ↦
      if status_eq p.1.status unknown
      then read_through (reconcile_read p.0 account p.1 usage credits now)
      else (p.0, ok (some p.1))
]
