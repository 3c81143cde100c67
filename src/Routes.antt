-- ===== src/Routes.antt =====
-- The public aliases of models: importSelection and renameModelAlias of
-- control-plane/lib/codex/operations.ts, and control-plane/lib/model-routes.ts. Each change ends by
-- storing a draft of the configuration, so it is refused where the configuration no longer compiles.
pub mod Unique
pub mod Keys
pub mod Changes
mod Tests
use papi.Common.{
  ℕ, String, List, [], ◌∷◌, ◌++◌, map, Option, none, some, Bool, true, false, not, ◌&&◌, ◌||◌,
  if◌then◌else◌, leb, ltb, ◌==◌, length, any, all, find, select, update_where, str_eq, includes,
}
use papi.Common.Text.{Text, codes, same, is_digit, is_space, to_lower}
use papi.Common.Json.{str, Fields, end, field}
use papi.Common.Result.{Result, ok, err, api, plain, ◌>>=◌, ◌>>◌, guard, or_throw}
use papi.Common.Audit.{AuditEvent, audit}
use papi.Proxies.{Engine}
use papi.Snapshot.Tables.{AccountRow, AliasRow, ModelRow, KeyRow, Tables, Snapshot}
use papi.Snapshot.Compile.{compile_declarative_snapshot}
use papi.Publish.{ConfigVersion, SnapshotAccount, Registry, draft, store_draft}

abbrev is_letter_or_digit : ℕ → Bool
is_letter_or_digit c = (leb b'A' c && leb c b'Z') || (leb b'a' c && leb c b'z') || is_digit c

-- `[._:/-]`
abbrev is_alias_separator : ℕ → Bool
is_alias_separator c = c == b'.' || c == b'_' || c == b':' || c == b'/' || c == b'-'

-- `^[A-Za-z0-9][A-Za-z0-9._:/-]{0,127}$`
matches_alias : Text → Bool
matches_alias [] = false
matches_alias (c ∷ s) =
    is_letter_or_digit c
    && all (λ d. is_letter_or_digit d || is_alias_separator d) s
    && leb (length s) 127

ends_in_separator : Text → Bool
ends_in_separator [] = false
ends_in_separator (c ∷ []) = is_alias_separator c
ends_in_separator (c ∷ d ∷ s) = ends_in_separator (d ∷ s)

unfoldable pub is_public_alias : Text → Bool
unfolding matches_alias ends_in_separator
is_public_alias alias = not (
    not (matches_alias alias)
    || ends_in_separator alias
    || any (λ c. is_space c || leb c 0x1f || c == 0x7f) alias)

unfoldable pub validate_public_alias : String → Result (Unit {0})
unfolding is_public_alias
validate_public_alias alias = guard (is_public_alias (codes alias)) (api 400 "invalid_model_alias")

-- `lower(alias)`
abbrev pub folded : String → Text
folded alias = map to_lower (codes alias)

pub record Provider : Type 0 where
  pub id : String
  pub enabled : Bool

pub record State : Type 0 where
  pub tables : Tables
  pub providers : List Provider
  pub events : List AuditEvent
  pub registry : Registry

-- `sha256Canonical` of a snapshot, and what the engine does with texts.
pub record Host : Type 0 where
  pub engine : Engine
  pub digest : Snapshot → String

abbrev pub with_aliases : List AliasRow → State → State
with_aliases rows s = record s { tables = record s.tables { aliases = rows } }

abbrev pub with_keys : List KeyRow → State → State
with_keys rows s = record s { tables = record s.tables { keys = rows } }

unfoldable pub assert_alias_available : List AliasRow → String → Result (Unit {0})
assert_alias_available rows alias =
    guard (not (any (λ r. same (folded r.alias) (folded alias)) rows))
      (api 409 "model_alias_conflict")

-- `compileDeclarativeSnapshot` and the row that `storeDraft` makes of it: its accounts have a
-- revision and no type of authorisation.
version_of : Host → Snapshot → ConfigVersion
version_of host snapshot = record {
  version = 0;
  status = draft;
  checksum = host.digest snapshot;
  schema_version = 2;
  accounts =
      map (λ a. record { adapter = a.adapter; auth_type = ""; has_revision = true })
        snapshot.accounts;
}

unfoldable pub with_draft : Host → State → Result State
unfolding version_of
with_draft host s = do
  snapshot ← compile_declarative_snapshot host.engine s.tables
  ok (record s { registry = (store_draft (version_of host snapshot) s.registry).1 })

abbrev pub logged : String → String → Fields → State → State
logged action id payload s = record s {
  events = audit s.events action "model_alias" (some id) payload;
}

-- The accounts of the provider that are enabled and offer the model.
unfoldable pub is_offered : Tables → String → String → Bool
is_offered t provider model =
    any
      (λ a.
        str_eq a.provider_id provider
        && a.enabled
        && any
            (λ d.
              str_eq d.account_id a.id
              && str_eq d.provider_id a.provider_id
              && str_eq d.upstream_model model
              && d.available)
            t.discovered)
      t.accounts

pub record Selection : Type 0 where
  pub alias : String
  pub provider_id : String
  pub upstream_model : String
  pub routing_strategy : String
  pub enabled : Option Bool

or_enabled : Option Bool → Bool
or_enabled none = true
or_enabled (some b) = b

unfoldable pub selected_row : String → Selection → AliasRow
unfolding or_enabled
selected_row id input = record {
  id = id;
  alias = input.alias;
  upstream_model = input.upstream_model;
  provider_id = some input.provider_id;
  routing_strategy = input.routing_strategy;
  enabled = or_enabled input.enabled;
  fallbacks = [];
  cache = "";
  cache_ttl = "";
  threshold = none;
  input_price = 0;
  output_price = 0;
}

-- The strategies that the CHECK of migrations/006_provider_model_pools.sql lets a row have.
abbrev pub stored_strategies : List String
stored_strategies = "manual" ∷ "round_robin" ∷ "quota_failover" ∷ []

unfoldable pub check_strategy : String → Result (Unit {0})
check_strategy strategy =
    guard (includes stored_strategies strategy) (plain "model_aliases_routing_strategy_check")

-- `id` is the new row's.
unfoldable pub import_selection : Host → String → Selection → State → Result State
unfolding validate_public_alias assert_alias_available check_strategy with_draft
import_selection host id input s = do
  validate_public_alias input.alias
  assert_alias_available s.tables.aliases input.alias
  provider ←
      or_throw (find (λ p. str_eq p.id input.provider_id && p.enabled) s.providers)
        (api 404 "provider_not_found")
  guard (is_offered s.tables input.provider_id input.upstream_model) (api 409 "model_unavailable")
  check_strategy input.routing_strategy
  with_draft host (
      logged "import_selection" id
        (field (codes "alias") (str (codes input.alias)) (
          field (codes "provider_id") (str (codes input.provider_id)) (
            field (codes "upstream_model") (str (codes input.upstream_model))
              (field (codes "routing_strategy") (str (codes input.routing_strategy)) end))))
        (with_aliases (s.tables.aliases ++ selected_row id input ∷ []) s))

-- `CASE WHEN m=$1 THEN $2 ELSE m END`
abbrev pub replace : String → String → String → String
replace old next m = if str_eq m old then next else m

abbrev pub renamed_key : String → String → KeyRow → KeyRow
renamed_key old next k = record k { models = map (replace old next) k.models }

-- `WHERE $1 = ANY(models)`
unfoldable pub rename_keys : String → String → List KeyRow → List KeyRow
rename_keys old next = update_where (λ k. includes k.models old) (renamed_key old next)

unfoldable pub rename_rows : String → String → List AliasRow → List AliasRow
rename_rows id next = update_where (λ r. str_eq r.id id) (λ r. record r { alias = next })

unfoldable pub unless : Bool → Result (Unit {0}) → Result (Unit {0})
unless true check = ok tt
unless false check = check

unfoldable pub rename_model_alias : Host → String → String → State → Result State
unfolding validate_public_alias assert_alias_available with_draft rename_keys rename_rows unless
rename_model_alias host id next s = do
  validate_public_alias next
  current ← or_throw (find (λ r. str_eq r.id id) s.tables.aliases) (api 404 "not_found")
  unless (same (folded current.alias) (folded next)) (assert_alias_available s.tables.aliases next)
  with_draft host (
      logged "rename" id
        (field (codes "old_alias") (str (codes current.alias))
          (field (codes "new_alias") (str (codes next)) end))
        (with_keys (rename_keys current.alias next s.tables.keys)
          (with_aliases (rename_rows id next s.tables.aliases) s)))

abbrev pub without_model : String → KeyRow → KeyRow
without_model alias k = record k { models = select (λ m. not (str_eq m alias)) k.models }

unfoldable pub drop_from_keys : String → List KeyRow → List KeyRow
drop_from_keys alias = update_where (λ k. includes k.models alias) (without_model alias)

-- The mappings of the alias go with it.
unfoldable pub drop_alias : String → State → State
drop_alias id s = record s {
  tables = record s.tables {
    aliases = select (λ r. not (str_eq r.id id)) s.tables.aliases;
    mappings = select (λ m. not (str_eq m.alias_id id)) s.tables.mappings;
  };
}

unfoldable pub delete_model_route : Host → String → State → Result State
unfolding with_draft drop_from_keys drop_alias
delete_model_route host id s = do
  current ← or_throw (find (λ r. str_eq r.id id) s.tables.aliases) (api 404 "not_found")
  with_draft host (
      logged "delete" id (field (codes "alias") (str (codes current.alias)) end)
        (drop_alias id (with_keys (drop_from_keys current.alias s.tables.keys) s)))

abbrev pub valid_strategies : List String
valid_strategies =
    "round_robin" ∷ "quota_failover" ∷ "p2c" ∷ "least_used" ∷ "lkgp" ∷ "reset_aware" ∷ []

is_of_provider : Option String → Bool
is_of_provider none = false
is_of_provider (some provider) = true

unfoldable pub is_provider_model : String → AliasRow → Bool
unfolding is_of_provider
is_provider_model id r = str_eq r.id id && is_of_provider r.provider_id

unfoldable pub update_provider_model_strategy : Host → String → String → State → Result State
unfolding is_provider_model check_strategy with_draft
update_provider_model_strategy host id strategy s = do
  guard (includes valid_strategies strategy) (api 400 "invalid_model_strategy")
  guard (any (is_provider_model id) s.tables.aliases) (api 404 "not_found")
  check_strategy strategy
  with_draft host (
      logged "update_strategy" id (field (codes "routing_strategy") (str (codes strategy)) end) (
        with_aliases
          (update_where (is_provider_model id) (λ r. record r { routing_strategy = strategy })
            s.tables.aliases)
          s))
