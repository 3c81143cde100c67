-- ===== src/Billing/Tables.antt =====
-- The tables behind usage and balances, with the columns that the code reads or writes. The
-- constraints are those of control-plane/migrations/007, 009, 010 and 012.
use papi.Common.{ℕ, String, List, Option, Bool}
use papi.Common.Int.{ℤ}
use papi.Common.Audit.{AuditEvent}

-- The outcomes that RequestAttemptSchema admits.
pub data AttemptOutcome : Type 0 where
  success : AttemptOutcome
  rate_limited : AttemptOutcome
  upstream_error : AttemptOutcome
  saturated : AttemptOutcome
  canceled : AttemptOutcome
  rejected : AttemptOutcome
  budget_exceeded : AttemptOutcome
  concurrency_limited : AttemptOutcome

pub record RequestAttempt : Type 0 where
  pub account : String
  pub adapter : String
  pub alias : String
  pub status : ℕ
  pub outcome : AttemptOutcome
  pub latency_ms : ℕ
  pub cooldown_ms : ℕ

-- Times are milliseconds since 1970, and cost_usd is in millionths of a dollar.
pub record RequestEvent : Type 0 where
  pub request_id : String
  pub occurred_at : ℕ
  pub endpoint : String
  pub public_model : String
  pub upstream_model : String
  pub virtual_key : String
  pub virtual_key_id : String
  pub cost_usd : ℕ
  pub streaming : Bool
  pub config_version : ℕ
  pub final_status : ℕ
  pub succeeded : Bool
  pub total_latency_ms : ℕ
  pub input_tokens : ℕ
  pub output_tokens : ℕ
  pub total_tokens : ℕ
  pub attempts : List RequestAttempt

-- A row of request_events; the column virtual_key_id is null where the event names no key.
pub record EventRow : Type 0 where
  pub id : ℕ
  pub gateway_id : String
  pub received_at : ℕ
  pub key_id : Option String
  pub event : RequestEvent

pub record AttemptRow : Type 0 where
  pub request_event_id : ℕ
  pub position : ℕ
  pub attempt : RequestAttempt

-- A row of key_spend_daily.
pub record Spend : Type 0 where
  pub virtual_key_id : String
  pub day : ℕ
  pub cost_usd : ℕ
  pub tokens_in : ℕ
  pub tokens_out : ℕ
  pub requests : ℕ

pub record VirtualKey : Type 0 where
  pub id : String
  pub name : String
  pub team_id : Option String

pub record Team : Type 0 where
  pub id : String
  pub balance_usd : ℤ

-- A row of credit_transactions.
pub record Credit : Type 0 where
  pub team_id : String
  pub delta_usd : ℤ
  pub kind : String
  pub source : String
  pub external_id : String

pub record Ledger : Type 0 where
  pub events : List EventRow
  pub next_id : ℕ
  pub attempts : List AttemptRow
  pub spend : List Spend
  pub keys : List VirtualKey
  pub teams : List Team
  pub credits : List Credit
  pub audits : List AuditEvent
