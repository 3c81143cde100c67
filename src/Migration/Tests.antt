-- ===== src/Migration/Tests.antt =====
-- Runs of control-plane/lib/snapshot-migration.ts on concrete versions.
use papi.Common.{
  ℕ, ◌+◌, ◌≡◌, refl, List, [], ◌∷◌, Option, none, some, Bool, true, false, length, all,
}
use papi.Common.Text.{Text, codes}
use papi.Common.Json.{Json, null, num, str, arr, obj, nil, cons, end, field, Fields}
use papi.Migration.{
  AccountRow, valid, Outcome, State, Source, has_credentials, reconstruct,
  sanitize_historical_config_versions,
}
use papi.Migration.Picked.{names_secret}
use papi.Migration.Clean.{reconstruct-clean}
use papi.Migration.Sanitized.{is_safe, sanitize_historical_config_versions-safe}

-- A legacy snapshot with a key for the account, and one with a token where none may stand.
abbrev legacy : Fields → Json
legacy server = obj (
    field (codes "server") (obj server) (
      field (codes "accounts")
        (arr (
          cons
            (obj (
              field (codes "name") (str (codes "main")) (
                field (codes "base_url") (str (codes "https://h/"))
                  (field (codes "api_key") (str (codes "k")) end))))
            nil))
        (field (codes "models") (arr nil) (
          field (codes "virtual_keys") (arr nil) (
            field (codes "routing") (obj (field (codes "max_attempts") (num 2) end))
              (field (codes "resilience") (obj end) end))))))

abbrev account : AccountRow
account = record {
  id = codes "a1";
  name = codes "main";
  adapter = codes "openai";
  base_url = codes "https://h";
  provider_base_url = codes "https://p";
  credential_revision = 1;
  enabled = true;
  priority = 0;
  weight = 1;
  max_concurrency = 4;
  cost = 0;
}

abbrev source : Source
source = record { accounts = account ∷ []; digest = λ j. codes "sum"; href = λ s. some s }

abbrev is_rebuilt : Option Json → Bool
is_rebuilt none = false
is_rebuilt (some j) = true

legacy_rebuilt : is_rebuilt (reconstruct (λ s. some s) (account ∷ []) (legacy end)) ≡ true
unfolding reconstruct papi.Common.Json.get papi.Common.Text.same has_credentials
    papi.Common.Text.member
legacy_rebuilt = refl

token_refused :
    reconstruct
      (λ s. some s)
      (account ∷ [])
      (legacy (field (codes "Access_Token") (str (codes "t")) end))
    ≡ none
unfolding reconstruct papi.Common.Json.get papi.Common.Text.same has_credentials
    papi.Common.Text.member
token_refused = refl

abbrev state : State
state = record {
  versions =
      record {
        version = 1;
        status = valid "published";
        snapshot = legacy end;
        checksum = codes "old";
        schema_version = 1;
        errors = nil;
      }
      ∷ [];
  done = none;
}

sanitize_historical_config_versions-safe_example :
    (t : State) × ((o : Outcome) × (sanitize_historical_config_versions source state ≡ (t, some o))
      × (all is_safe t.versions ≡ true)
      × (length t.versions ≡ 1)
      × (o.reconstructed + o.invalid_count ≡ 1)
      × (sanitize_historical_config_versions source t ≡ (t, none)))
sanitize_historical_config_versions-safe_example =
    sanitize_historical_config_versions-safe source state refl

abbrev or_null : Option Json → Json
or_null none = null
or_null (some j) = j

abbrev rebuilt : Json
rebuilt = or_null (reconstruct (λ s. some s) (account ∷ []) (legacy end))

rebuilt_from : reconstruct (λ s. some s) (account ∷ []) (legacy end) ≡ some rebuilt
unfolding reconstruct papi.Common.Json.get papi.Common.Text.same has_credentials
    papi.Common.Text.member
rebuilt_from = refl

reconstruct-clean_example : names_secret rebuilt ≡ false
reconstruct-clean_example =
    reconstruct-clean (λ s. some s) (account ∷ []) (legacy end) rebuilt rebuilt_from
