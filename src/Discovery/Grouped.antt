-- ===== src/Discovery/Grouped.antt =====
-- control-plane/lib/codex/operations.ts, `groupedDiscoveredModels`: the discovered models of all
-- accounts, grouped by provider and model, with the metadata of the accounts that offer them.
pub mod Counted
use papi.Common.{
  ℕ, suc, ◌+◌, ◌≡◌, refl, String, List, [], ◌∷◌, ◌++◌, map, Option, none, some, Bool, ◌&&◌,
  if◌then◌else◌, length, select, Bool-cases, inl, inr, arith, ap,
}
use papi.Common.Text.{Text, codes, same, same_iff}
use papi.Common.Json.{Json, null, str, obj}
use papi.Metadata.{ModelMetadata, normalize_model_metadata, record_of}
use papi.Metadata.Merge.{merge_model_metadata}
use papi.Discovery.Metadata.{set_field}

-- A row of discovered_models with its provider and its account, in the order of the query;
-- `last_seen_at` is the time as an ISO text. The display name of the model is left out.
pub record ListedModel : Type 0 where
  pub provider_id : String
  pub provider_slug : String
  pub provider_name : String
  pub adapter : String
  pub upstream_model : Text
  pub capabilities : Json
  pub raw_metadata : Json
  pub account_id : String
  pub account_display_name : String
  pub available : Bool
  pub last_seen_at : Option Text

pub record AccountState : Type 0 where
  pub account_id : String
  pub available : Bool
  pub display_name : String
  pub last_seen_at : Option Text

-- `accounts` is the object keyed by account; a query gives each account of a model once.
pub record Group : Type 0 where
  pub key : Text
  pub provider_id : String
  pub provider_slug : String
  pub provider_name : String
  pub adapter : String
  pub upstream_model : Text
  pub accounts : List AccountState
  pub account_count : ℕ
  pub available_account_count : ℕ
  pub metadata_items : List ModelMetadata

-- `${row.provider_id}:${row.upstream_model}`
unfoldable pub group_key : ListedModel → Text
group_key r = codes r.provider_id ++ b':' ∷ r.upstream_model

iso_or_null : Option Text → Json
iso_or_null none = null
iso_or_null (some s) = str s

row_metadata : (Text → Option ℕ) → ListedModel → ModelMetadata
unfolding iso_or_null
row_metadata read r = normalize_model_metadata read (
    some (
      obj (
        set_field (codes "last_seen_at") (iso_or_null r.last_seen_at)
          (set_field (codes "capabilities") r.capabilities (record_of (some r.raw_metadata))))))

new_group : ListedModel → Group
unfolding group_key
new_group r = record {
  key = group_key r;
  provider_id = r.provider_id;
  provider_slug = r.provider_slug;
  provider_name = r.provider_name;
  adapter = r.adapter;
  upstream_model = r.upstream_model;
  accounts = [];
  account_count = 0;
  available_account_count = 0;
  metadata_items = [];
}

with_account : ListedModel → Group → Group
with_account r g = record g {
  accounts =
      g.accounts
      ++ record {
        account_id = r.account_id;
        available = r.available;
        display_name = r.account_display_name;
        last_seen_at = r.last_seen_at;
      }
        ∷ [];
  account_count = suc g.account_count;
}

with_metadata : (Text → Option ℕ) → ListedModel → Group → Group
unfolding row_metadata
with_metadata read r g =
    if r.available
    then record g {
      available_account_count = suc g.available_account_count;
      metadata_items = g.metadata_items ++ row_metadata read r ∷ [];
    }
    else g

-- `grouped.get(key) ?? …`, and `grouped.set(key, group)`.
unfoldable pub add_row : (Text → Option ℕ) → ListedModel → List Group → List Group
unfolding new_group with_account with_metadata group_key
add_row read r [] = with_metadata read r (with_account r (new_group r)) ∷ []
add_row read r (g ∷ groups) =
    let rest = add_row read r groups in
    if same g.key (group_key r) then with_metadata read r (with_account r g) ∷ groups else g ∷ rest

unfoldable pub add_rows : (Text → Option ℕ) → List ListedModel → List Group → List Group
unfolding add_row
add_rows read [] groups = groups
add_rows read (r ∷ rows) groups = add_rows read rows (add_row read r groups)

pub record GroupedModel : Type 0 where
  pub group : Group
  pub metadata : ModelMetadata
  pub supported_in_api : Option Bool

finish : (Text → Option ℕ) → Group → GroupedModel
finish date g =
    let metadata = merge_model_metadata date g.metadata_items in
    record { group = g; metadata = metadata; supported_in_api = metadata.supported_in_api }

unfoldable pub grouped_discovered_models :
    (Text → Option ℕ) → (Text → Option ℕ) → List ListedModel → List GroupedModel
unfolding add_rows finish
grouped_discovered_models read date rows = map (finish date) (add_rows read rows [])
