-- ===== src/Reset/Refresh.antt =====
-- control-plane/lib/codex/quota.ts: `refreshCodexQuota`, which reads an account's quota.
use papi.Common.{ℕ, String, List, Option, none, some, if◌then◌else◌, str_eq, or_else}
use papi.Common.Text.{codes}
use papi.Common.Json.{Json, str, Fields, end, field, get}
use papi.Common.Result.{Result, ok, err, Thrown, api, ◌>>=◌}
use papi.Common.Dict.{Dict, lookup, insert}
use papi.Common.Audit.{AuditEvent, audit}
use papi.Reset.Actions.{text_or_null}
use papi.Reset.Flow.{Answer, readings}

-- A row of account_provider_state.
pub record ProviderState : Type 0 where
  pub quota : Fields
  pub reset_credits : Fields
  pub capability_status : String
  pub fetched_at : Option ℕ
  pub last_operation : String
  pub last_error_code : Option String
  pub updated_at : ℕ

pub record Refreshed : Type 0 where
  pub states : Dict ProviderState
  pub events : List AuditEvent
  pub result : Result (Unit {0})

abbrev pub capability : String → String
capability code =
    if str_eq code "codex_quota_unsupported"
    then "unsupported"
    else if str_eq code "codex_quota_contract_changed"
    then "contract_changed"
    else "error"

abbrev pub error_code : Thrown → String
error_code (api status code) = code
error_code _ = "provider_operation_failed"

-- `ON CONFLICT … DO UPDATE` of the failing branch: the readings of an old row stay.
abbrev pub marked : String → ℕ → Option ProviderState → ProviderState
marked code now none = record {
  quota = end;
  reset_credits = end;
  capability_status = capability code;
  fetched_at = none;
  last_operation = "quota.refresh";
  last_error_code = some code;
  updated_at = now;
}
marked code now (some s) = record s {
  capability_status = capability code;
  last_operation = "quota.refresh";
  last_error_code = some code;
  updated_at = now;
}

-- The row that a refresh leaves, from what it has read, the clock and the row before it.
abbrev pub refreshed :
    Result (Fields × Fields × Option ℕ × Option String) → ℕ → Option ProviderState → ProviderState
refreshed (ok (quota, reset_credits, at, warning)) now old = record {
  quota = quota;
  reset_credits = reset_credits;
  capability_status = "available";
  fetched_at = some (or_else at now);
  last_operation = "quota.refresh";
  last_error_code = none;
  updated_at = now;
}
refreshed (err e) now old = marked (error_code e) now old

unfoldable pub fetched :
    (Option Json → Result (Option ℕ))
    → Result (Fields × Fields × Option String)
    → Result (Fields × Fields × Option ℕ × Option String)
fetched timestamp r = do
  (quota, credits, warning) ← r
  at ← timestamp (get (codes "fetched_at") quota)
  ok (quota, credits, at, warning)

unfoldable pub store :
    Dict ProviderState
    → List AuditEvent
    → String
    → ℕ
    → Result (Fields × Fields × Option ℕ × Option String)
    → Refreshed
store states events account now (ok (quota, reset_credits, at, warning)) = record {
  states =
      insert account
        (refreshed (ok (quota, reset_credits, at, warning)) now (lookup account states)) states;
  events = audit events "quota.refresh" "account" (some account) (
      field (codes "status") (str (codes "succeeded"))
        (field (codes "warning_code") (text_or_null warning) end));
  result = ok tt;
}
store states events account now (err e) = record {
  states = insert account (refreshed (err e) now (lookup account states)) states;
  events = audit events "quota.refresh" "account" (some account) (
      field (codes "status") (str (codes "failed"))
        (field (codes "error_code") (str (codes (error_code e))) end));
  result = err e;
}

-- `timestamp` is the database's cast of the field `fetched_at` to a time: none for a missing one,
-- an error for a text that is no time.
unfoldable pub refresh :
    (Option Json → Result (Option ℕ))
    → Dict ProviderState
    → List AuditEvent
    → String
    → Answer
    → Answer
    → ℕ
    → Refreshed
refresh timestamp states events account usage credits now =
    store states events account now (fetched timestamp (readings usage credits).1)
