-- ===== src/Snapshot/Tests.antt =====
-- Runs of control-plane/lib/snapshots.ts on concrete models and tables.
use papi.Common.{
  ◌≡◌, ◌↔◌, ◌≢◌, ◌<◌, refl, List, [], ◌∷◌, map, Option, none, some, true, false, length, All, arith,
}
use papi.Common.Json.{str}
use papi.Common.Dict.{insert, lookup}
use papi.Common.Result.{ok}
use papi.Snapshot.Fallbacks.{
  Model, index, index_from, walk, out_of_fuel, validate_fallback_chains, check_models, walk_from,
  known, following,
}
use papi.Proxies.{Engine}
use papi.Snapshot.Tables.{Tables, ModelEntry}
use papi.Snapshot.Compile.{
  compile_declarative_snapshot, assemble, fallback_model, validate_cache_modes,
}
use papi.Snapshot.Closed.{IsServed, compile_declarative_snapshot-IsServed}
use papi.Snapshot.Chains.{unvisited, walk-ends}
use papi.Snapshot.Accepted.{Sound, validate_fallback_chains_iff}

abbrev models : List Model
models =
    record { alias = "fast"; fallbacks = "slow" ∷ "spare" ∷ [] }
    ∷ record { alias = "slow"; fallbacks = "spare" ∷ [] }
    ∷ record { alias = "spare"; fallbacks = [] }
    ∷ []

models_pass : validate_fallback_chains models ≡ ok tt
unfolding validate_fallback_chains check_models index index_from walk_from walk known following
    insert lookup
models_pass = refl

validate_fallback_chains_iff_example :
    (validate_fallback_chains models ≡ ok tt) ↔ All (Sound models) models
validate_fallback_chains_iff_example = validate_fallback_chains_iff models

walk-ends_example : walk 5 (index models) [] "fast" ≢ out_of_fuel
unfolding unvisited index index_from insert
walk-ends_example = walk-ends 5 (index models) [] "fast" (omega arith)

abbrev engine : Engine
engine = record {
  number = λ s. none;
  new_url = λ s. none;
  decode_component = λ s. some s;
  parse_json = λ s. none;
}

abbrev tables : Tables
tables = record {
  accounts =
      record {
        id = "a1";
        name = "main";
        provider_id = "p";
        adapter = "openai";
        base_url = "https://api.example";
        credential_revision = 1;
        enabled = true;
        priority = 0;
        weight = 1;
        max_concurrency = 4;
        cost = 0;
        proxy = none;
      }
      ∷ [];
  aliases =
      record {
        id = "m1";
        alias = "fast";
        upstream_model = "gpt";
        provider_id = some "p";
        routing_strategy = "round_robin";
        enabled = true;
        fallbacks = [];
        cache = "";
        cache_ttl = "";
        threshold = none;
        input_price = 0;
        output_price = 0;
      }
      ∷ [];
  mappings = [];
  discovered =
      record { provider_id = "p"; account_id = "a1"; upstream_model = "gpt"; available = true }
      ∷ [];
  keys =
      record {
        id = "k1";
        name = "key";
        key_hash = "hash";
        models = "fast" ∷ [];
        enabled = true;
        rpm = 60;
        tpm = 0;
        max_concurrency = 0;
        budget = 0;
        budget_duration = "day";
        team = some (record { id = "t"; budget = 3000000; balance = 0; org = none });
      }
      ∷ [];
  mcp_servers = [];
  routing = none;
  optimization = none;
  webhook = none;
  proxy_pool = none;
}

abbrev entry : ModelEntry
entry = record {
  alias = "fast";
  upstream_model = "gpt";
  accounts = "main" ∷ [];
  routing_strategy = some "round_robin";
  fallbacks = [];
  input_cost = none;
  output_cost = none;
  cache = none;
  cache_ttl = none;
  threshold = none;
  sources = [];
}

tables_compile : compile_declarative_snapshot engine tables ≡ ok (assemble tables [] (entry ∷ []))
unfolding compile_declarative_snapshot papi.Snapshot.Settings.proxies_of papi.Common.Json.member_of
    validate_fallback_chains index_from insert following lookup
tables_compile = refl

compile_declarative_snapshot-IsServed_example :
    (0 < length (assemble tables [] (entry ∷ [])).virtual_keys)
    × All
        (IsServed (map (λ a. a.name) (assemble tables [] (entry ∷ [])).accounts))
        (assemble tables [] (entry ∷ [])).models
    × (validate_fallback_chains (map fallback_model (assemble tables [] (entry ∷ [])).models)
        ≡ ok tt)
    × (validate_cache_modes (assemble tables [] (entry ∷ [])).models ≡ ok tt)
compile_declarative_snapshot-IsServed_example =
    compile_declarative_snapshot-IsServed engine tables (assemble tables [] (entry ∷ []))
      tables_compile
