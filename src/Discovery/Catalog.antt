-- ===== src/Discovery/Catalog.antt =====
-- control-plane/lib/codex/operations.ts: `discoverModelsForScope` and `persistAccountModels`:
-- the table discovered_models, whose rows are unique by account and model.
use papi.Common.{
  ℕ, String, List, [], ◌∷◌, ◌++◌, Option, none, Bool, true, false, not, ◌&&◌, if◌then◌else◌, length,
  select, any, update_where, str_eq, map,
}
use papi.Common.Text.{Text, codes, same, member}
use papi.Common.Json.{Json, Fields, end, field, str, num, obj}
use papi.Common.Result.{Result, ok, err, Thrown, api, plain, zod}
use papi.Common.Audit.{AuditEvent, audit}
use papi.Discovery.Metadata.{ParsedModel, parse_models}

pub record Account : Type 0 where
  pub id : String
  pub provider_id : String
  pub name : Text
  pub enabled : Bool

pub record DiscoveredModel : Type 0 where
  pub provider_id : String
  pub account_id : String
  pub upstream_model : Text
  pub display_name : Text
  pub capabilities : Fields
  pub visibility : Text
  pub supported_in_api : Bool
  pub available : Bool
  pub raw_metadata : Fields
  pub last_seen_at : ℕ

-- The unique key (account_id, upstream_model).
abbrev pub is_row : String → Text → DiscoveredModel → Bool
is_row account model r = str_eq r.account_id account && same r.upstream_model model

-- `ON CONFLICT … DO UPDATE`
abbrev pub seen_again : ℕ → ParsedModel → DiscoveredModel → DiscoveredModel
seen_again now m r = record r {
  display_name = m.display_name;
  capabilities = m.capabilities;
  visibility = m.visibility;
  supported_in_api = m.supported_in_api;
  available = true;
  raw_metadata = m.raw_metadata;
  last_seen_at = now;
}

abbrev pub new_row : ℕ → Account → ParsedModel → DiscoveredModel
new_row now a m = record {
  provider_id = a.provider_id;
  account_id = a.id;
  upstream_model = m.upstream_model;
  display_name = m.display_name;
  capabilities = m.capabilities;
  visibility = m.visibility;
  supported_in_api = m.supported_in_api;
  available = true;
  raw_metadata = m.raw_metadata;
  last_seen_at = now;
}

unfoldable pub upsert_model :
    ℕ → Account → ParsedModel → List DiscoveredModel → List DiscoveredModel
upsert_model now a m rows =
    if any (is_row a.id m.upstream_model) rows
    then update_where (is_row a.id m.upstream_model) (seen_again now m) rows
    else rows ++ new_row now a m ∷ []

unfoldable pub upsert_models :
    ℕ → Account → List ParsedModel → List DiscoveredModel → List DiscoveredModel
unfolding upsert_model
upsert_models now a [] rows = rows
upsert_models now a (m ∷ ms) rows = upsert_models now a ms (upsert_model now a m rows)

abbrev pub unavailable : DiscoveredModel → DiscoveredModel
unavailable r = record r { available = false }

-- `account_id=$1 AND NOT (upstream_model = ANY($2))`
abbrev pub is_unseen : Account → List Text → DiscoveredModel → Bool
is_unseen a seen r = str_eq r.account_id a.id && not (member r.upstream_model seen)

abbrev pub upstream_models : List ParsedModel → List Text
upstream_models = map (λ m. m.upstream_model)

unfoldable pub persist_account_models :
    ℕ → Account → List ParsedModel → List DiscoveredModel → List DiscoveredModel
unfolding upsert_models
persist_account_models now a ms rows =
    update_where (is_unseen a (upstream_models ms)) unavailable (upsert_models now a ms rows)

pub data Discovery : Type 0 where
  succeeded : (account_id : String) (model_count : ℕ) (warning_code : Option String) → Discovery
  failed : (account_id : String) (code : String) → Discovery

unfoldable pub safe_error : Thrown → String
safe_error (api status code) = code
safe_error (plain about) = "provider_operation_failed"
safe_error zod = "provider_operation_failed"

-- What a provider's gateway answers for an account: its data, and a warning.
abbrev pub Gateway : Type 0
Gateway = Account → Result (Json × Option String)

store_models :
    ℕ
    → Account
    → Option String
    → List DiscoveredModel
    → Result (List ParsedModel)
    → Discovery × List DiscoveredModel
unfolding persist_account_models safe_error
store_models now a warning rows (err thrown) = (failed a.id (safe_error thrown), rows)
store_models now a warning rows (ok ms) =
    (succeeded a.id (length ms) warning, persist_account_models now a ms rows)

store_answer :
    ℕ
    → Account
    → List DiscoveredModel
    → Result (Json × Option String)
    → Discovery × List DiscoveredModel
unfolding store_models safe_error
store_answer now a rows (err thrown) = (failed a.id (safe_error thrown), rows)
store_answer now a rows (ok (answer, warning)) =
    store_models now a warning rows (parse_models answer)

unfoldable pub discover_account :
    ℕ → Gateway → Account → List DiscoveredModel → Discovery × List DiscoveredModel
unfolding store_answer
discover_account now gateway a rows = store_answer now a rows (gateway a)

pub data Scope : Type 0 where
  everything : Scope
  of_provider : (provider_id : String) → Scope
  of_account : (account_id : String) → Scope

abbrev pub scope_json : Scope → Fields
scope_json everything = field (codes "scope") (str (codes "all")) end
scope_json (of_provider id) =
    field (codes "scope") (str (codes "provider_id"))
      (field (codes "provider_id") (str (codes id)) end)
scope_json (of_account id) =
    field (codes "scope") (str (codes "account_id"))
      (field (codes "account_id") (str (codes id)) end)

abbrev pub in_scope : Scope → Account → Bool
in_scope everything a = a.enabled
in_scope (of_provider id) a = a.enabled && str_eq a.provider_id id
in_scope (of_account id) a = a.enabled && str_eq a.id id

-- The table of accounts stands in the order of their names.
unfoldable pub accounts_for_scope : Scope → List Account → List Account
accounts_for_scope scope accounts = select (in_scope scope) accounts

-- The accounts' calls in turn; `mapLimit` interleaves them.
discover_accounts :
    ℕ → Gateway → List Account → List DiscoveredModel → List Discovery × List DiscoveredModel
unfolding discover_account
discover_accounts now gateway [] rows = ([], rows)
discover_accounts now gateway (a ∷ accounts) rows =
    let first = discover_account now gateway a rows in
    let rest = discover_accounts now gateway accounts first.1 in (first.0 ∷ rest.0, rest.1)

abbrev pub has_succeeded : Discovery → Bool
has_succeeded (succeeded id count warning) = true
has_succeeded (failed id code) = false

unfoldable pub discover_models_for_scope :
    ℕ
    → Gateway
    → Scope
    → List Account
    → List DiscoveredModel
    → List AuditEvent
    → List Discovery × List DiscoveredModel × List AuditEvent
unfolding accounts_for_scope discover_accounts
discover_models_for_scope now gateway scope accounts rows events =
    let done = discover_accounts now gateway (accounts_for_scope scope accounts) rows in
    let won = length (select has_succeeded done.0) in
    let lost = length (select (λ r. not (has_succeeded r)) done.0) in
    (
      done.0,
      done.1,
      audit events "discover_models" "model_discovery" none (
          field (codes "scope") (obj (scope_json scope))
            (field (codes "succeeded") (num won) (field (codes "failed") (num lost) end))),
    )
