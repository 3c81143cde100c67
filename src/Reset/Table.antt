-- ===== src/Reset/Table.antt =====
-- The rows of provider_operations with operation_type 'quota_reset', and the statements that
-- control-plane/lib/codex/quota.ts runs on them. Rows stand in the order of their creation; a
-- statement's `now()` is an argument.
use papi.Common.{
  ℕ, String, List, [], ◌∷◌, Option, none, some, Bool, true, false, ◌&&◌, if◌then◌else◌, leb, str_eq,
  find, any, update_where,
}
use papi.Common.Text.{Text, same}
use papi.Common.Json.{Fields}
use papi.Common.Audit.{AuditEvent}

pub data Status : Type 0 where
  pending succeeded failed unknown : Status

unfoldable pub status_eq : Status → Status → Bool
status_eq pending pending = true
status_eq succeeded succeeded = true
status_eq failed failed = true
status_eq unknown unknown = true
status_eq _ _ = false

-- `{ quota, reset_credits }` as the preflight column keeps it.
pub record Preflight : Type 0 where
  pub quota : Fields
  pub reset_credits : Fields

pub record Operation : Type 0 where
  pub id : String
  pub account_id : String
  pub idempotency_key : Text
  pub status : Status
  pub lease_expires_at : Option ℕ
  pub preflight : Preflight
  pub upstream_request_id : String
  pub result_summary : Fields
  pub warning_code : Option String
  pub resolution_source : Option String
  pub resolution_note : Option Text
  pub resolved_at : Option ℕ
  pub created_at : ℕ
  pub completed_at : Option ℕ

pub record Account : Type 0 where
  pub id : String
  pub name : String
  pub adapter : String

pub record World : Type 0 where
  pub operations : List Operation
  pub accounts : List Account
  pub events : List AuditEvent

-- `status IN ('pending','unknown')`
abbrev pub is_active : Status → Bool
is_active pending = true
is_active unknown = true
is_active succeeded = false
is_active failed = false

-- `lease_expires_at<=now()`, which a NULL lease does not satisfy.
abbrev pub lease_over : ℕ → Option ℕ → Bool
lease_over now none = false
lease_over now (some t) = leb t now

abbrev pub key_matches : Option Text → Text → Bool
key_matches none key = true
key_matches (some k) key = same key k

abbrev pub expires : ℕ → String → Option Text → Operation → Bool
expires now account key o =
    str_eq o.account_id account
    && status_eq o.status pending
    && lease_over now o.lease_expires_at
    && key_matches key o.idempotency_key

abbrev pub expired : Operation → Operation
expired o = record o {
  status = unknown;
  warning_code = some "quota_reset_lease_expired";
  lease_expires_at = none;
}

unfoldable pub expire_pending : ℕ → String → Option Text → List Operation → List Operation
expire_pending now account key rows = update_where (expires now account key) expired rows

abbrev pub has_key : String → Text → Operation → Bool
has_key account key o = str_eq o.account_id account && same o.idempotency_key key

unfoldable pub load_by_key : String → Text → List Operation → Option Operation
load_by_key account key rows = find (has_key account key) rows

abbrev pub has_id : String → String → Operation → Bool
has_id account id o = str_eq o.id id && str_eq o.account_id account

unfoldable pub load_by_id : String → String → List Operation → Option Operation
load_by_id account id rows = find (has_id account id) rows

abbrev pub active_of : String → Operation → Bool
active_of account o = str_eq o.account_id account && is_active o.status

-- `… ORDER BY created_at DESC LIMIT 1`: the last row that qualifies.
unfoldable pub find_last : (Operation → Bool) → List Operation → Option Operation
find_last p [] = none
find_last p (o ∷ rows) = elim (find_last p rows) [
  | some r ↦ some r
  | none ↦ if p o then some o else none
]

unfoldable pub is_codex : String → List Account → Bool
is_codex account accounts =
    any (λ a. str_eq a.id account && str_eq a.adapter "openai-codex") accounts
