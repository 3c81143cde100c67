-- ===== src/Reset/Actions.antt =====
-- The transactions of control-plane/lib/codex/quota.ts. Each runs under the account's advisory lock
-- or on one row, so it is one step; a transaction that throws is rolled back, so `err` carries no
-- state.
use papi.Common.{
  ℕ, ◌+◌, String, List, [], ◌∷◌, ◌++◌, Option, none, some, Bool, true, false, ◌&&◌, ◌||◌, not,
  if◌then◌else◌, ltb, str_eq, find, update_where, length, or_else,
}
use papi.Common.Text.{Text, codes, trim}
use papi.Common.Json.{Json, null, bool, str, obj, Fields, end, field}
use papi.Common.Result.{Result, ok, err, api, ◌>>=◌, ◌>>◌, guard, or_throw}
use papi.Common.Audit.{audit}
use papi.Reset.Table.{
  Status, pending, succeeded, failed, unknown, status_eq, Preflight, Operation, World,
  expire_pending, load_by_key, load_by_id, active_of, find_last, is_codex, has_id,
}

abbrev pub status_name : Status → String
status_name pending = "pending"
status_name succeeded = "succeeded"
status_name failed = "failed"
status_name unknown = "unknown"

abbrev pub text_or_null : Option String → Json
text_or_null none = null
text_or_null (some s) = str (codes s)

-- `interval '2 minutes'`, in milliseconds.
abbrev pub lease_ms : ℕ
lease_ms = 120000

abbrev pub started : String → Text → String → String → Preflight → ℕ → Operation
started account key id request_id preflight now = record {
  id = id;
  account_id = account;
  idempotency_key = key;
  status = pending;
  lease_expires_at = some (now + lease_ms);
  preflight = preflight;
  upstream_request_id = request_id;
  result_summary = end;
  warning_code = none;
  resolution_source = none;
  resolution_note = none;
  resolved_at = none;
  created_at = now;
  completed_at = none;
}

pub record Prepared : Type 0 where
  pub world : World
  pub operation : Operation
  pub dispatch : Bool

-- What is done once the row with the same key has been looked for.
unfoldable pub begin : World → String → Text → String → String → Preflight → ℕ → Result Prepared
begin w account key id request_id preflight now =
    if is_codex account w.accounts
    then ok (record {
      world = record w {
        operations = w.operations ++ started account key id request_id preflight now ∷ [];
        events = audit w.events "quota.reset.start" "provider_operation" (some id) (
            field (codes "account_id") (str (codes account))
              (field (codes "status") (str (codes "pending")) end));
      };
      operation = started account key id request_id preflight now;
      dispatch = true;
    })
    else err (api 404 "codex_account_not_found")

unfoldable pub refuse_active : Option Operation → Result Prepared → Result Prepared
refuse_active (some o) rest = err (api 409 "quota_reset_active")
refuse_active none rest = rest

unfoldable pub or_same : World → Option Operation → Result Prepared → Result Prepared
or_same w (some o) rest = ok (record { world = w; operation = o; dispatch = false })
or_same w none rest = rest

-- The transaction in the middle of resetCodexQuota. `id` is the key that the database gives the new
-- row.
unfoldable pub prepare : World → String → Text → String → String → Preflight → ℕ → Result Prepared
unfolding begin refuse_active or_same
prepare w account key id request_id preflight now =
    let rows = expire_pending now account none w.operations in
    let clean = record w { operations = rows } in
    or_same clean (load_by_key account key rows) (
      refuse_active (find_last (active_of account) rows)
        (begin clean account key id request_id preflight now))

abbrev pub is_pending : String → Operation → Bool
is_pending id o = str_eq o.id id && status_eq o.status pending

-- `completed_at=CASE WHEN $2 IN ('succeeded','failed') THEN now() ELSE NULL END`
abbrev pub completion : Status → ℕ → Option ℕ
completion succeeded now = some now
completion failed now = some now
completion _ now = none

abbrev pub settled : Status → Fields → Option String → ℕ → Operation → Operation
settled status summary warning now o = record o {
  status = status;
  result_summary = summary;
  warning_code = warning;
  lease_expires_at = none;
  completed_at = completion status now;
}

unfoldable pub update_after_dispatch :
    World → String → Status → Fields → Option String → ℕ → Result (World × Operation)
update_after_dispatch w id status summary warning now = do
  o ← or_throw (find (is_pending id) w.operations) (api 409 "quota_reset_state_conflict")
  ok (
    record w {
      operations = update_where (is_pending id) (settled status summary warning now) w.operations;
      events = audit w.events "quota.reset.finish" "provider_operation" (some id) (
          field (codes "status") (str (codes (status_name status)))
            (field (codes "warning_code") (text_or_null warning) end));
    },
    settled status summary warning now o,
  )

-- The first transaction of reconcileCodexQuotaReset.
unfoldable pub reconcile_begin : World → String → String → ℕ → Result (World × Operation)
reconcile_begin w account id now =
    let rows = expire_pending now account none w.operations in
    do
      o ← or_throw (load_by_id account id rows) (api 404 "quota_reset_operation_not_found")
      guard (not (status_eq o.status pending)) (api 409 "quota_reset_pending")
      ok (record w { operations = rows }, o)

abbrev pub is_unknown : String → Operation → Bool
is_unknown id o = str_eq o.id id && status_eq o.status unknown

abbrev pub is_unknown_of : String → String → Operation → Bool
is_unknown_of account id o = has_id account id o && status_eq o.status unknown

abbrev pub inconclusive : String → Operation → Operation
inconclusive code o = record o {
  result_summary =
      field (codes "reconciliation") (str (codes "inconclusive"))
        (field (codes "error_code") (str (codes code)) end);
  warning_code = some code;
}

-- The statement of reconcileCodexQuotaReset's `catch`, outside any transaction.
unfoldable pub reconcile_failed : World → String → String → World
reconcile_failed w id code = record w {
  operations = update_where (is_unknown id) (inconclusive code) w.operations;
}

abbrev pub reconciled : Bool → Fields → Fields → ℕ → Operation → Operation
reconciled conclusive quota credits now o = record o {
  status = if conclusive then succeeded else unknown;
  result_summary =
      field (codes "reconciliation")
        (str (codes (if conclusive then "consumed" else "inconclusive")))
        (field (codes "quota") (obj quota) (field (codes "reset_credits") (obj credits) end));
  resolution_source = if conclusive then some "reconciled" else o.resolution_source;
  resolved_at = if conclusive then some now else o.resolved_at;
  completed_at = if conclusive then some now else o.completed_at;
  lease_expires_at = none;
  warning_code = if conclusive then none else some "quota_reset_reconciliation_inconclusive";
}

abbrev pub row_status : Option Operation → Json
row_status none = null
row_status (some o) = str (codes (status_name o.status))

-- The second transaction of reconcileCodexQuotaReset. The row that it returns is read back, which
-- is none only if another process deleted it.
unfoldable pub reconcile_commit :
    World → String → String → Bool → Fields → Fields → ℕ → World × Option Operation
reconcile_commit w account id conclusive quota credits now =
    let rows =
      update_where (is_unknown_of account id) (reconciled conclusive quota credits now)
        w.operations in
    let row = load_by_id account id rows in
    (
      record w {
        operations = rows;
        events = audit w.events "quota.reset.reconcile" "provider_operation" (some id) (
            field (codes "account_id") (str (codes account)) (
              field (codes "status") (row_status row)
                (field (codes "conclusive") (bool conclusive) end)));
      },
      row,
    )

-- `result_summary || $5::jsonb`
unfoldable pub merge_field : Text → Json → Fields → Fields
merge_field k v end = field k v end
merge_field k v (field j u fs) =
    if papi.Common.Text.same j k then field k v fs else field j u (merge_field k v fs)

abbrev pub resolved : Status → Text → ℕ → Operation → Operation
resolved status note now o = record o {
  status = status;
  resolution_source = some "manual";
  resolution_note = some note;
  resolved_at = some now;
  completed_at = some now;
  lease_expires_at = none;
  result_summary =
      merge_field (codes "manual_resolution") (str (codes (status_name status))) o.result_summary;
}

pub data Resolution : Type 0 where
  as_succeeded as_failed other : Resolution

abbrev pub resolution_status : Resolution → Option Status
resolution_status as_succeeded = some succeeded
resolution_status as_failed = some failed
resolution_status other = none

unfoldable pub resolve_row :
    World → String → String → Status → Text → ℕ → Result (World × Operation)
resolve_row w account id status note now =
    let rows = expire_pending now account none w.operations in
    elim (find (is_unknown_of account id) rows) [
      | some o ↦ ok (
        record w {
          operations = update_where (is_unknown_of account id) (resolved status note now) rows;
          events = audit w.events "quota.reset.resolve" "provider_operation" (some id) (
              field (codes "account_id") (str (codes account)) (
                field (codes "resolution") (str (codes (status_name status)))
                  (field (codes "note") (str note) end)));
        },
        resolved status note now o,
      )
      | none ↦ elim (load_by_id account id rows) [
        | none ↦ err (api 404 "quota_reset_operation_not_found")
        | some o ↦ err (api 409 "quota_reset_not_unknown")
      ]
    ]

unfoldable pub resolve :
    World → String → String → Resolution → Text → ℕ → Result (World × Operation)
unfolding resolve_row
resolve w account id resolution note now = do
  status ← or_throw (resolution_status resolution) (api 400 "resolution_invalid")
  guard (not (ltb (length (trim note)) 10 || ltb 1000 (length (trim note))))
      (api 400 "resolution_note_required")
  resolve_row w account id status (trim note) now
