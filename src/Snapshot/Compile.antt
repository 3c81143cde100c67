-- ===== src/Snapshot/Compile.antt =====
-- compileDeclarativeSnapshot of control-plane/lib/snapshots.ts: what the tables say, put together as
-- the snapshot without secrets that gateways are given.
use papi.Common.{
  ℕ, ◌+◌, ◌*◌, ◌/◌, String, List, [], ◌∷◌, map, Option, none, some, Bool, true, false, not, ◌&&◌,
  ◌||◌, if◌then◌else◌, ltb, leb, ◌==◌, length, select, find, str_eq, flat_map,
}
use papi.Common.Text.{Text, trim}
use papi.Common.Json.{Json, str}
use papi.Common.Result.{Result, ok, plain, ◌>>=◌, ◌>>◌, guard}
use papi.Proxies.{Engine}
use papi.Snapshot.Fallbacks.{Model, validate_fallback_chains}
use papi.Snapshot.Settings.{
  normalize_optimization, resilience_of, routing_of, webhook_of, proxies_of,
}
use papi.Snapshot.Tables.{
  AccountRow, AliasRow, Mapping, Org, Team, KeyRow, McpRow, Tables, AccountEntry, Source,
  ModelEntry, OrgPart, TeamPart, KeyEntry, McpEntry, Snapshot,
}

-- `Number(n) > 0 ? { … } : {}`
abbrev pub positive : ℕ → Option ℕ
positive n = if ltb 0 n then some n else none

-- `s ? { … } : {}`
abbrev pub nonempty : String → Option String
nonempty s = if str_eq s "" then none else some s

-- `typeof value === 'string'`, and not blank.
abbrev pub written : Option Json → Option Text
written (some (str s)) = if length (trim s) == 0 then none else some s
written _ = none

unfoldable pub account_entry : AccountRow → AccountEntry
account_entry a = record {
  id = a.id;
  name = a.name;
  adapter = a.adapter;
  base_url = a.base_url;
  credential_revision = a.credential_revision;
  enabled = a.enabled;
  priority = a.priority;
  weight = a.weight;
  max_concurrency = a.max_concurrency;
  cost = a.cost;
  proxy = written a.proxy;
}

unfoldable pub enabled_accounts : Tables → List AccountRow
enabled_accounts t = select (λ a. a.enabled) t.accounts

-- One row of the mappings' query.
pub record Mapped : Type 0 where
  pub alias : String
  pub account_name : String
  pub mapping : Mapping

unfoldable pub mapped_alias : Mapping → AccountRow → Option AliasRow → List Mapped
mapped_alias m a none = []
mapped_alias m a (some row) = record { alias = row.alias; account_name = a.name; mapping = m } ∷ []

unfoldable pub mapped_account : Tables → Mapping → Option AccountRow → List Mapped
unfolding mapped_alias
mapped_account t m none = []
mapped_account t m (some a) =
    if m.enabled && a.enabled
    then mapped_alias m a (find (λ row. str_eq row.id m.alias_id) t.aliases)
    else []

unfoldable pub mapped_rows : Tables → List Mapped
unfolding mapped_account
mapped_rows t =
    flat_map (λ m. mapped_account t m (find (λ a. str_eq a.id m.account_id) t.accounts)) t.mappings

-- `byAlias.get(alias) ?? []`
unfoldable pub mapped_names : Tables → String → List String
unfolding mapped_rows
mapped_names t alias =
    map (λ r. r.account_name) (select (λ r. str_eq r.alias alias) (mapped_rows t))

-- The rows of the pools' query for one alias of a provider.
unfoldable pub pool_rows : Tables → AliasRow → String → List String
pool_rows t row provider =
    flat_map
      (λ a.
        if str_eq a.provider_id provider && a.enabled
        then map (λ d. a.name)
            (select
              (λ d.
                str_eq d.provider_id provider
                && str_eq d.account_id a.id
                && str_eq d.upstream_model row.upstream_model
                && d.available)
              t.discovered)
        else [])
      t.accounts

-- `m.provider_id ? providerByAlias.get(m.alias) ?? [] : byAlias.get(m.alias) ?? []`
unfoldable pub account_names : Tables → AliasRow → Option String → List String
unfolding pool_rows mapped_names
account_names t row none = mapped_names t row.alias
account_names t row (some provider) = pool_rows t row provider

has_override : Mapping → Bool
has_override m =
    not (str_eq m.upstream_override "")
    || ltb 0 m.weight
    || ltb 0 m.input_price
    || ltb 0 m.output_price

source_of : Mapped → Source
source_of r = record {
  account = r.account_name;
  upstream_model = nonempty r.mapping.upstream_override;
  weight = positive r.mapping.weight;
  input_cost = positive r.mapping.input_price;
  output_cost = positive r.mapping.output_price;
}

unfoldable pub sources_for : Tables → String → List Source
unfolding has_override source_of mapped_rows
sources_for t alias =
    map source_of
      (select (λ r. has_override r.mapping) (select (λ r. str_eq r.alias alias) (mapped_rows t)))

-- The routing strategy is that of an alias of a provider.
abbrev strategy_of : String → Option String → Option String
strategy_of strategy none = none
strategy_of strategy (some provider) = some strategy

unfoldable pub model_entry : Tables → AliasRow → Result ModelEntry
unfolding sources_for account_names
model_entry t row =
    let names = account_names t row row.provider_id in
    guard (ltb 0 (length names)) (plain "model has no eligible accounts")
    >> ok (record {
      alias = row.alias;
      upstream_model = row.upstream_model;
      accounts = names;
      routing_strategy = strategy_of row.routing_strategy row.provider_id;
      fallbacks = row.fallbacks;
      input_cost = positive row.input_price;
      output_cost = positive row.output_price;
      cache = nonempty row.cache;
      cache_ttl = nonempty row.cache_ttl;
      threshold = row.threshold;
      sources = sources_for t row.alias;
    })

unfoldable pub model_entries : Tables → List AliasRow → Result (List ModelEntry)
unfolding model_entry
model_entries t [] = ok []
model_entries t (row ∷ rows) = do
  entry ← model_entry t row
  entries ← model_entries t rows
  ok (entry ∷ entries)

-- The threshold is in (0, 1], of millionths.
threshold_fits : ModelEntry → Option ℕ → Result (Unit {0})
threshold_fits m none = ok tt
threshold_fits m (some threshold) = do
  guard (ltb 0 threshold && leb threshold 1000000)
      (plain "cache_similar_threshold must be in (0, 1]")
  guard (is_similar m.cache) (plain "cache_similar_threshold requires cache: similar")
  where
    is_similar : Option String → Bool
    is_similar none = false
    is_similar (some cache) = str_eq cache "similar"

unfoldable pub validate_cache_modes : List ModelEntry → Result (Unit {0})
unfolding threshold_fits
validate_cache_modes [] = ok tt
validate_cache_modes (m ∷ models) = threshold_fits m m.threshold >> validate_cache_modes models

-- `teamKeyCounts.get(team) ?? 1`
abbrev in_team : String → Option Team → Bool
in_team id none = false
in_team id (some team) = str_eq team.id id

unfoldable pub team_key_count : Tables → String → ℕ
team_key_count t id =
    let counted = length (select (λ k. k.enabled && in_team id k.team) t.keys) in
    if counted == 0 then 1 else counted

-- `Math.round(budget / keys * 1e6) / 1e6`, in millionths.
unfoldable pub share_of : ℕ → ℕ → Option ℕ
share_of budget keys = if ltb 0 budget then some ((2 * budget + keys) / (2 * keys)) else none

org_part : Option Org → Option OrgPart
org_part none = none
org_part (some org) =
    if ltb 0 org.budget then some (record { id = org.id; budget = org.budget }) else none

abbrev org_budget : Option Org → ℕ
org_budget none = 0
org_budget (some org) = org.budget

team_part : Tables → Option Team → Option TeamPart
unfolding team_key_count share_of org_part
team_part t none = none
team_part t (some team) =
    if ltb 0 team.budget || ltb 0 (org_budget team.org) || ltb 0 team.balance
    then some (record {
      id = team.id;
      budget = team.budget;
      share = share_of team.budget (team_key_count t team.id);
      balance = positive team.balance;
      org = org_part team.org;
    })
    else none

key_entry : Tables → KeyRow → KeyEntry
unfolding team_part
key_entry t k = record {
  id = nonempty k.id;
  name = k.name;
  key_hash = k.key_hash;
  models = k.models;
  rpm = k.rpm;
  tpm = positive k.tpm;
  max_concurrency = positive k.max_concurrency;
  budget = positive k.budget;
  budget_duration =
      if str_eq k.budget_duration "" || str_eq k.budget_duration "day"
      then none
      else some k.budget_duration;
  team = team_part t k.team;
}

-- A model as validateFallbackChains reads it.
abbrev pub fallback_model : ModelEntry → Model
fallback_model m = record { alias = m.alias; fallbacks = m.fallbacks }

abbrev pub mcp_entry : McpRow → McpEntry
mcp_entry m = record { name = m.name; url = m.url; enabled = true }

unfoldable pub enabled_keys : Tables → List KeyEntry
unfolding key_entry
enabled_keys t = map (key_entry t) (select (λ k. k.enabled) t.keys)

unfoldable pub enabled_models : Tables → Result (List ModelEntry)
unfolding model_entries
enabled_models t = model_entries t (select (λ row. row.enabled) t.aliases)

unfoldable pub assemble : Tables → List Text → List ModelEntry → Snapshot
unfolding account_entry enabled_accounts enabled_keys
assemble t proxies models =
    let routing = routing_of t.routing in
    record {
      virtual_keys = enabled_keys t;
      models = models;
      accounts = map account_entry (enabled_accounts t);
      proxies = proxies;
      strategy = routing.strategy;
      sticky_ttl = routing.sticky_ttl;
      max_attempts = routing.max_attempts;
      resilience = resilience_of routing.resilience;
      optimization = normalize_optimization t.optimization;
      mcp_servers = map mcp_entry (select (λ m. m.enabled) t.mcp_servers);
      webhook = webhook_of t.webhook;
    }

unfoldable pub compile_declarative_snapshot : Engine → Tables → Result Snapshot
unfolding validate_cache_modes enabled_models assemble
compile_declarative_snapshot engine t = do
  proxies ← proxies_of engine t.proxy_pool
  models ← enabled_models t
  validate_fallback_chains (map fallback_model models)
  validate_cache_modes models
  guard (ltb 0 (length (enabled_keys t))) (plain "at least one virtual key required")
  ok (assemble t proxies models)
