-- ===== src/Discovery/Tests.antt =====
-- Runs of control-plane/lib/codex/operations.ts on concrete answers.
use papi.Common.{
  ℕ, suc, ◌+◌, ◌*◌, ◌≤◌, ◌<◌, ◌≡◌, refl, ◌⊎◌, String, List, [], ◌∷◌, Option, none, some, Bool, true,
  false, length, select, any, all, min, map, All, arith, inl, inr,
}
use papi.Common.Text.{Text, codes, has}
use papi.Common.Json.{Json, null, bool, num, str, arr, obj, nil, cons, end, field}
use papi.Common.Result.{ok}
use papi.Discovery.Secrets.{filter_json, clean_json, filter_json-settled}
use papi.Discovery.Metadata.{ParsedModel, parse_models}
use papi.Discovery.Metadata.Fitting.{IsModel, parse_models-IsModel}
use papi.Discovery.Workers.{Worker, stopped, is_stopped, Shared, turn, map_limit}
use papi.Discovery.Workers.Order.{results}
use papi.Discovery.Workers.Schedule.{map_limit-results, map_limit-ends}
use papi.Discovery.Catalog.{
  Account, DiscoveredModel, is_row, upstream_models, persist_account_models,
}
use papi.Discovery.Grouped.{ListedModel, grouped_discovered_models}
use papi.Discovery.Grouped.Counted.{
  account_count_of, available_count_of, groups_of, is_listed, is_listed_available,
  grouped_discovered_models-count,
}
use papi.Discovery.Persisted.{of_others, of_account, IsTold, persist_account_models-IsTold}

abbrev answer : Json
answer = obj (
    field (codes "models")
      (arr (
        cons
          (obj (
            field (codes "slug") (str (codes "gpt")) (
              field (codes "api_key") (str (codes "k"))
                (field (codes "owner") (obj (field (codes "Session-Token") null end)) end))))
          nil))
      end)

abbrev gpt : ParsedModel
gpt = record {
  upstream_model = codes "gpt";
  display_name = codes "gpt";
  capabilities = end;
  visibility = codes "unknown";
  supported_in_api = false;
  raw_metadata = field (codes "slug") (str (codes "gpt")) (field (codes "owner") (obj end) end);
}

answer_read : parse_models answer ≡ ok (gpt ∷ [])
unfolding parse_models papi.Common.Json.get papi.Common.Text.same
    papi.Discovery.Metadata.sanitize_metadata papi.Common.Stringify.json_bytes
    papi.Discovery.Secrets.filter_fields papi.Discovery.Secrets.is_secret_key
    papi.Common.Text.contains
answer_read = refl

parse_models-IsModel_example : All IsModel (gpt ∷ [])
parse_models-IsModel_example = parse_models-IsModel answer (gpt ∷ []) answer_read

filter_json-settled_example :
    (clean_json (filter_json answer) ≡ true)
    × (filter_json (filter_json answer) ≡ filter_json answer)
filter_json-settled_example = filter_json-settled answer

-- Two workers take three items; the second one is faster.
abbrev schedule : List ℕ
schedule = 0 ∷ 1 ∷ 1 ∷ 1 ∷ 0 ∷ 0 ∷ 1 ∷ 1 ∷ []

abbrev items : List ℕ
items = 10 ∷ 20 ∷ 30 ∷ []

abbrev finished : Shared ℕ
finished = record { next = 3; out = some 11 ∷ some 21 ∷ some 31 ∷ [] }

schedule_run : map_limit items (λ n. n + 1) 2 schedule ≡ some (finished, stopped ∷ stopped ∷ [])
unfolding map_limit
schedule_run = refl

map_limit-results_example : finished.out ≡ results (λ n. n + 1) items
map_limit-results_example =
    map_limit-results items (λ n. n + 1) 2 schedule finished (stopped ∷ stopped ∷ []) (omega arith)
      schedule_run refl

map_limit-ends_example :
    (8 ≤ 2 * length items + min 2 (length items))
    × ((all is_stopped (stopped ∷ stopped ∷ []) ≡ true)
        ⊎ ((w : ℕ) × ((t : Shared ℕ) × ((us : List Worker) × (turn items
                    (λ n. n + 1)
                    w
                    finished
                    (stopped ∷ stopped ∷ [])
                  ≡ some (t, us))))))
map_limit-ends_example =
    map_limit-ends items (λ n. n + 1) 2 schedule finished (stopped ∷ stopped ∷ []) schedule_run

abbrev account : Account
account = record { id = "a1"; provider_id = "p"; name = codes "main"; enabled = true }

abbrev stored : String → Text → DiscoveredModel
stored id model = record {
  provider_id = "p";
  account_id = id;
  upstream_model = model;
  display_name = model;
  capabilities = end;
  visibility = codes "unknown";
  supported_in_api = false;
  available = true;
  raw_metadata = end;
  last_seen_at = 1;
}

abbrev rows : List DiscoveredModel
rows = stored "a1" (codes "old") ∷ stored "a2" (codes "old") ∷ []

persist_account_models-IsTold_example :
    (select (of_others account) (persist_account_models 9 account (gpt ∷ []) rows)
      ≡ select (of_others account) rows)
    × All
        (IsTold (upstream_models (gpt ∷ [])))
        (select (of_account account) (persist_account_models 9 account (gpt ∷ []) rows))
    × (all
          (λ t. any (is_row "a1" t) (persist_account_models 9 account (gpt ∷ []) rows))
          (upstream_models (gpt ∷ []))
        ≡ true)
persist_account_models-IsTold_example = persist_account_models-IsTold 9 account (gpt ∷ []) rows

abbrev listed : String → Bool → ListedModel
listed id available = record {
  provider_id = "p";
  provider_slug = "p";
  provider_name = "P";
  adapter = "codex";
  upstream_model = codes "gpt";
  capabilities = obj end;
  raw_metadata = obj end;
  account_id = id;
  account_display_name = id;
  available = available;
  last_seen_at = none;
}

abbrev both : List ListedModel
both = listed "a1" true ∷ record (listed "a3" true) { provider_id = "q" } ∷ listed "a2" false ∷ []

grouped_discovered_models-count_example :
    (account_count_of
        (codes "p:gpt")
        (groups_of (grouped_discovered_models (λ s. none) (λ s. none) both))
      ≡ length (select (is_listed "p" (codes "gpt")) both))
    × (available_count_of
          (codes "p:gpt")
          (groups_of (grouped_discovered_models (λ s. none) (λ s. none) both))
        ≡ length (select (is_listed_available "p" (codes "gpt")) both))
unfolding has
grouped_discovered_models-count_example =
    grouped_discovered_models-count (λ s. none) (λ s. none) both "p" (codes "gpt") refl
      (refl, (refl, (refl, tt)))
