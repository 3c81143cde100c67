-- ===== src/Deletion.antt =====
-- control-plane/lib/resource-deletion.ts: an account or a provider is deleted with what refers to it,
-- and aliases that no account can serve any more are disabled.
pub mod Served
mod Tests
use papi.Common.{
  ℕ, String, List, [], ◌∷◌, Option, none, some, Bool, true, false, not, ◌&&◌, if◌then◌else◌, length,
  any, find, select, update_where, str_eq, map,
}
use papi.Common.Result.{Result, ok, err, api, ◌>>=◌, or_throw}
use papi.Snapshot.Tables.{ModelRow}

pub record Account : Type 0 where
  pub id : String
  pub provider_id : String
  pub secret_record_id : Option String
  pub enabled : Bool

pub record Alias : Type 0 where
  pub id : String
  pub upstream_model : String
  pub provider_id : Option String
  pub enabled : Bool

-- A row of model_account_mappings.
pub record AliasAccount : Type 0 where
  pub alias_id : String
  pub account_id : String

-- `operations` has the account of each row of provider_operations, `providers` and `secrets` the ids.
pub record Store : Type 0 where
  pub providers : List String
  pub accounts : List Account
  pub operations : List String
  pub mappings : List AliasAccount
  pub aliases : List Alias
  pub discovered : List ModelRow
  pub secrets : List String

-- An account of the provider that is enabled and offers the model.
unfoldable pub is_served : List Account → List ModelRow → String → String → Bool
is_served accounts discovered provider model =
    any
      (λ a.
        str_eq a.provider_id provider
        && a.enabled
        && any
            (λ d.
              str_eq d.account_id a.id
              && str_eq d.provider_id a.provider_id
              && str_eq d.upstream_model model
              && d.available)
            discovered)
      accounts

abbrev pub disabled : Alias → Alias
disabled a = record a { enabled = false }

abbrev pub has_mapping : List AliasAccount → Alias → Bool
has_mapping mappings a = any (λ m. str_eq m.alias_id a.id) mappings

abbrev pub is_of : String → Option String → Bool
is_of provider none = false
is_of provider (some p) = str_eq p provider

abbrev pub is_some_provider : Option String → Bool
is_some_provider none = false
is_some_provider (some p) = true

-- `ma.enabled AND ma.provider_id IS NULL AND NOT EXISTS …`
unfoldable pub is_orphan : List AliasAccount → Alias → Bool
is_orphan mappings a =
    a.enabled && not (is_some_provider a.provider_id) && not (has_mapping mappings a)

-- `ma.enabled AND ma.provider_id=$1 AND NOT EXISTS …`
unfoldable pub is_unserved : String → List Account → List ModelRow → Alias → Bool
unfolding is_served
is_unserved provider accounts discovered a =
    a.enabled
    && is_of provider a.provider_id
    && not (is_served accounts discovered provider a.upstream_model)

without_secret : Option String → List String → List String
without_secret none secrets = secrets
without_secret (some id) secrets = select (λ s. not (str_eq s id)) secrets

-- The statements after the account is found; its discovered models go with its row.
unfoldable pub remove_account : Account → Store → Store
unfolding is_orphan is_unserved without_secret
remove_account a s =
    let accounts = select (λ b. not (str_eq b.id a.id)) s.accounts in
    let mappings = select (λ m. not (str_eq m.account_id a.id)) s.mappings in
    let discovered = select (λ d. not (str_eq d.account_id a.id)) s.discovered in
    record s {
      accounts = accounts;
      operations = select (λ o. not (str_eq o a.id)) s.operations;
      mappings = mappings;
      aliases =
          update_where (is_unserved a.provider_id accounts discovered) disabled
            (update_where (is_orphan mappings) disabled s.aliases);
      discovered = discovered;
      secrets = without_secret a.secret_record_id s.secrets;
    }

unfoldable pub delete_account_resource : String → Store → Result Store
unfolding remove_account
delete_account_resource id s = do
  account ← or_throw (find (λ a. str_eq a.id id) s.accounts) (api 404 "not_found")
  ok (remove_account account s)

unfoldable pub delete_accounts : List String → Store → Result Store
unfolding delete_account_resource
delete_accounts [] s = ok s
delete_accounts (id ∷ ids) s = do t ← delete_account_resource id s; delete_accounts ids t

-- The foreign key of model_aliases becomes null.
abbrev pub without_provider : String → Alias → Alias
without_provider provider a =
    if is_of provider a.provider_id then record a { provider_id = none } else a

-- The state and the number of deleted accounts. The accounts stand in the order of their ids.
unfoldable pub delete_provider_resource : String → Store → Result (Store × ℕ)
unfolding delete_accounts
delete_provider_resource id s = do
  provider ← or_throw (find (λ p. str_eq p id) s.providers) (api 404 "not_found")
  let ids = map (λ a. a.id) (select (λ a. str_eq a.provider_id id) s.accounts)
  t ← delete_accounts ids s
  ok (
    record t {
      providers = select (λ p. not (str_eq p id)) t.providers;
      aliases = map (without_provider id) t.aliases;
    },
    length ids,
  )
