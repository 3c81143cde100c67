-- ===== src/Snapshot/Tables.antt =====
-- The rows that compileDeclarativeSnapshot of control-plane/lib/snapshots.ts reads, and the snapshot
-- that it makes of them. Money, costs and thresholds are natural numbers of millionths. Each table
-- stands in the order in which its query asks for it.
use papi.Common.{ℕ, String, List, Option, Bool}
use papi.Common.Number.{Number}
use papi.Common.Text.{Text}
use papi.Common.Json.{Json}

pub record AccountRow : Type 0 where
  pub id : String
  pub name : String
  pub provider_id : String
  pub adapter : String
  pub base_url : String
  pub credential_revision : ℕ
  pub enabled : Bool
  pub priority : ℕ
  pub weight : ℕ
  pub max_concurrency : ℕ
  pub cost : ℕ
  pub proxy : Option Json

pub record AliasRow : Type 0 where
  pub id : String
  pub alias : String
  pub upstream_model : String
  pub provider_id : Option String
  pub routing_strategy : String
  pub enabled : Bool
  pub fallbacks : List String
  pub cache : String
  pub cache_ttl : String
  pub threshold : Option ℕ
  pub input_price : ℕ
  pub output_price : ℕ

pub record Mapping : Type 0 where
  pub alias_id : String
  pub account_id : String
  pub enabled : Bool
  pub upstream_override : String
  pub weight : ℕ
  pub input_price : ℕ
  pub output_price : ℕ

pub record ModelRow : Type 0 where
  pub provider_id : String
  pub account_id : String
  pub upstream_model : String
  pub available : Bool

pub record Org : Type 0 where
  pub id : String
  pub budget : ℕ

pub record Team : Type 0 where
  pub id : String
  pub budget : ℕ
  pub balance : ℕ
  pub org : Option Org

-- A virtual key, joined with its team.
pub record KeyRow : Type 0 where
  pub id : String
  pub name : String
  pub key_hash : String
  pub models : List String
  pub enabled : Bool
  pub rpm : ℕ
  pub tpm : ℕ
  pub max_concurrency : ℕ
  pub budget : ℕ
  pub budget_duration : String
  pub team : Option Team

pub record McpRow : Type 0 where
  pub name : String
  pub url : String
  pub enabled : Bool

pub record Routing : Type 0 where
  pub strategy : String
  pub sticky_ttl : String
  pub max_attempts : ℕ
  pub resilience : Option Json

-- The settings are those of the three keys.
pub record Tables : Type 0 where
  pub accounts : List AccountRow
  pub aliases : List AliasRow
  pub mappings : List Mapping
  pub discovered : List ModelRow
  pub keys : List KeyRow
  pub mcp_servers : List McpRow
  pub routing : Option Routing
  pub optimization : Option Json
  pub webhook : Option Json
  pub proxy_pool : Option Json

pub record AccountEntry : Type 0 where
  pub id : String
  pub name : String
  pub adapter : String
  pub base_url : String
  pub credential_revision : ℕ
  pub enabled : Bool
  pub priority : ℕ
  pub weight : ℕ
  pub max_concurrency : ℕ
  pub cost : ℕ
  pub proxy : Option Text

pub record Source : Type 0 where
  pub account : String
  pub upstream_model : Option String
  pub weight : Option ℕ
  pub input_cost : Option ℕ
  pub output_cost : Option ℕ

pub record ModelEntry : Type 0 where
  pub alias : String
  pub upstream_model : String
  pub accounts : List String
  pub routing_strategy : Option String
  pub fallbacks : List String
  pub input_cost : Option ℕ
  pub output_cost : Option ℕ
  pub cache : Option String
  pub cache_ttl : Option String
  pub threshold : Option ℕ
  pub sources : List Source

pub record OrgPart : Type 0 where
  pub id : String
  pub budget : ℕ

pub record TeamPart : Type 0 where
  pub id : String
  pub budget : ℕ
  pub share : Option ℕ
  pub balance : Option ℕ
  pub org : Option OrgPart

pub record KeyEntry : Type 0 where
  pub id : Option String
  pub name : String
  pub key_hash : String
  pub models : List String
  pub rpm : ℕ
  pub tpm : Option ℕ
  pub max_concurrency : Option ℕ
  pub budget : Option ℕ
  pub budget_duration : Option String
  pub team : Option TeamPart

pub record Resilience : Type 0 where
  pub cooldown : Json
  pub circuit_failures : Number
  pub circuit_reset : Json
  pub lockout_failures : Number
  pub lockout_duration : Json

pub record Optimization : Type 0 where
  pub rtk_compression : Bool
  pub caveman : Bool
  pub headroom : Bool
  pub headroom_reserve : ℕ
  pub headroom_keep : ℕ
  pub rtk_mode : Option Text
  pub caveman_mode : Option Text
  pub headroom_profile : Option Text
  pub squoze : Bool

pub record Webhook : Type 0 where
  pub enabled : Bool
  pub url : Text
  pub secret : Text

pub record McpEntry : Type 0 where
  pub name : String
  pub url : String
  pub enabled : Bool

pub record Snapshot : Type 0 where
  pub virtual_keys : List KeyEntry
  pub models : List ModelEntry
  pub accounts : List AccountEntry
  pub proxies : List Text
  pub strategy : String
  pub sticky_ttl : String
  pub max_attempts : ℕ
  pub resilience : Resilience
  pub optimization : Optimization
  pub mcp_servers : List McpEntry
  pub webhook : Option Webhook
