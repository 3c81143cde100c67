-- ===== src/Routes/Tests.antt =====
-- Runs of control-plane/lib/model-routes.ts and of the renaming of aliases on concrete tables.
use papi.Common.{◌≡◌, refl, String, List, [], ◌∷◌, Option, none, some, Bool, true, false, map}
use papi.Common.Result.{Result, ok, err, plain}
use papi.Snapshot.Tables.{AliasRow}
use papi.Routes.{State, Host, rename_model_alias, delete_model_route}
use papi.Routes.Changes.{IsSound, Reach, Change, Reach-IsSound}

abbrev host : Host
host = record {
  engine = record {
    number = λ s. none;
    new_url = λ s. none;
    decode_component = λ s. some s;
    parse_json = λ s. none;
  };
  digest = λ s. "sum";
}

abbrev alias_row : String → String → List String → AliasRow
alias_row id alias fallbacks = record {
  id = id;
  alias = alias;
  upstream_model = "gpt";
  provider_id = some "p";
  routing_strategy = "round_robin";
  enabled = true;
  fallbacks = fallbacks;
  cache = "";
  cache_ttl = "";
  threshold = none;
  input_price = 0;
  output_price = 0;
}

abbrev state : List String → State
state fallbacks = record {
  tables = record {
    accounts =
        record {
          id = "a1";
          name = "main";
          provider_id = "p";
          adapter = "openai";
          base_url = "https://api.example";
          credential_revision = 1;
          enabled = true;
          priority = 0;
          weight = 1;
          max_concurrency = 4;
          cost = 0;
          proxy = none;
        }
        ∷ [];
    aliases = alias_row "m1" "fast" fallbacks ∷ alias_row "m2" "slow" [] ∷ [];
    mappings = [];
    discovered =
        record { provider_id = "p"; account_id = "a1"; upstream_model = "gpt"; available = true }
        ∷ [];
    keys =
        record {
          id = "k1";
          name = "key";
          key_hash = "hash";
          models = "fast" ∷ "slow" ∷ [];
          enabled = true;
          rpm = 60;
          tpm = 0;
          max_concurrency = 0;
          budget = 0;
          budget_duration = "day";
          team = none;
        }
        ∷ [];
    mcp_servers = [];
    routing = none;
    optimization = none;
    webhook = none;
    proxy_pool = none;
  };
  providers = record { id = "p"; enabled = true } ∷ [];
  events = [];
  registry = record { versions = []; next_version = 1; gateways = []; acks = [] };
}

abbrev or_same : Result State → State
or_same (ok s) = s
or_same (err thrown) = state []

abbrev renamed : State
renamed = or_same (rename_model_alias host "m2" "steady" (state []))

renaming : rename_model_alias host "m2" "steady" (state []) ≡ ok renamed
unfolding rename_model_alias papi.Common.Text.same
    papi.Snapshot.Compile.compile_declarative_snapshot papi.Snapshot.Settings.proxies_of
    papi.Common.Json.member_of papi.Snapshot.Fallbacks.validate_fallback_chains
    papi.Snapshot.Fallbacks.index_from papi.Common.Dict.insert papi.Snapshot.Fallbacks.following
    papi.Common.Dict.lookup
renaming = refl

renamed_keys : map (λ k. k.models) renamed.tables.keys ≡ ("fast" ∷ "steady" ∷ []) ∷ []
unfolding rename_model_alias papi.Common.Text.same
    papi.Snapshot.Compile.compile_declarative_snapshot papi.Snapshot.Settings.proxies_of
    papi.Common.Json.member_of papi.Snapshot.Fallbacks.validate_fallback_chains
    papi.Snapshot.Fallbacks.index_from papi.Common.Dict.insert papi.Snapshot.Fallbacks.following
    papi.Common.Dict.lookup
renamed_keys = refl

Reach-IsSound_example : IsSound renamed
unfolding papi.Common.Text.member papi.Common.Text.same
Reach-IsSound_example =
    Reach-IsSound host (state []) renamed
      (Reach.after Reach.here (Change.renamed "m2" "steady" renamed renaming)) (refl, refl, refl)

-- An alias that is another's fallback cannot be renamed, since the other still names the old alias.
fallback_refused :
    rename_model_alias host "m2" "steady" (state ("slow" ∷ []))
    ≡ err (plain "model fallback references unknown model")
unfolding rename_model_alias papi.Common.Text.same
    papi.Snapshot.Compile.compile_declarative_snapshot papi.Snapshot.Settings.proxies_of
    papi.Common.Json.member_of papi.Snapshot.Fallbacks.validate_fallback_chains
    papi.Common.Dict.lookup papi.Snapshot.Fallbacks.index_from papi.Common.Dict.insert
fallback_refused = refl

-- Neither can it be deleted.
deletion_refused :
    delete_model_route host "m2" (state ("slow" ∷ []))
    ≡ err (plain "model fallback references unknown model")
unfolding delete_model_route papi.Snapshot.Compile.compile_declarative_snapshot
    papi.Snapshot.Settings.proxies_of papi.Common.Json.member_of
    papi.Snapshot.Fallbacks.validate_fallback_chains papi.Common.Dict.lookup
    papi.Snapshot.Fallbacks.index_from papi.Common.Dict.insert
deletion_refused = refl
