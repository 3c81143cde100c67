-- ===== src/Migration.antt =====
-- control-plane/lib/snapshot-migration.ts: old configuration versions, whose snapshots may hold
-- secrets, are put together again from the parts that may stay, or marked invalid.
pub mod Parts
pub mod Sanitized
pub mod Picked
pub mod Clean
mod Tests
unfoldable pub use Parts.*
use papi.Common.{
  ℕ, suc, ◌+◌, ◌-◌, ◌*◌, String, List, [], ◌∷◌, ◌++◌, Option, none, some, Bool, true, false, not,
  ◌&&◌, ◌||◌, if◌then◌else◌, ltb, ◌==◌, length, any, select, str_eq, map,
}
use mathlib.Core.List.{reverse}
use papi.Common.Text.{Text, codes, same, member, contains, to_lower}
use papi.Common.Cut.{print}
use papi.Common.Json.{
  Json, null, bool, num, str, arr, obj, Items, nil, cons, Fields, end, field, get,
}
use papi.Common.Stringify.{stringify}

-- A row of accounts with its provider; its cost is a natural number here.
pub record AccountRow : Type 0 where
  pub id : Text
  pub name : Text
  pub adapter : Text
  pub base_url : Text
  pub provider_base_url : Text
  pub credential_revision : ℕ
  pub enabled : Bool
  pub priority : ℕ
  pub weight : ℕ
  pub max_concurrency : ℕ
  pub cost : ℕ

-- `s.replace(/\/+$/, '')`
drop_slashes : Text → Text
drop_slashes s = reverse (without (reverse s))
  where
    without : Text → Text
    without [] = []
    without (c ∷ t) = let rest = without t in if c == b'/' then rest else c ∷ t

lowered : Text → Text
lowered s = map to_lower s

-- `href` is the text of a URL without hash, query and the slashes at the end of its path, and `none`
-- for a text that is no URL.
unfoldable pub normalize_url : (Text → Option Text) → Text → Option Text
unfolding drop_slashes lowered
normalize_url href s =
    if length s == 0 then none else some (lowered (drop_slashes (or_itself (href s))))
  where
    or_itself : Option Text → Text
    or_itself none = s
    or_itself (some t) = t

is_url : (Text → Option Text) → Text → Text → Bool
is_url href url s = same_url (normalize_url href s)
  where
    same_url : Option Text → Bool
    same_url none = false
    same_url (some t) = same url t

legacy_url : (Text → Option Text) → Option Json → Option Text
unfolding normalize_url
legacy_url href (some (str s)) = normalize_url href s
legacy_url href _ = none

-- `legacy.adapter && legacy.adapter !== row.adapter`
adapter_fits : Option Json → Text → Bool
adapter_fits none adapter = true
adapter_fits (some null) adapter = true
adapter_fits (some (bool b)) adapter = not b
adapter_fits (some (num n)) adapter = n == 0
adapter_fits (some (str s)) adapter = length s == 0 || same s adapter
adapter_fits (some (arr xs)) adapter = false
adapter_fits (some (obj fs)) adapter = false

unfoldable pub legacy_account_matches : (Text → Option Text) → Fields → AccountRow → Bool
unfolding adapter_fits legacy_url is_url
legacy_account_matches href legacy row =
    adapter_fits (get (codes "adapter") legacy) row.adapter
    && url_fits (legacy_url href (get (codes "base_url") legacy))
  where
    url_fits : Option Text → Bool
    url_fits none = false
    url_fits (some url) = is_url href url row.base_url || is_url href url row.provider_base_url

unfoldable pub account_json : AccountRow → Json
account_json row = obj (
    field (codes "id") (str row.id) (
      field (codes "name") (str row.name) (
        field (codes "adapter") (str row.adapter) (
          field (codes "base_url") (str row.base_url) (
            field (codes "credential_revision") (num row.credential_revision) (
              field (codes "enabled") (bool row.enabled) (
                field (codes "priority") (num row.priority) (
                  field (codes "weight") (num row.weight) (
                    field (codes "max_concurrency") (num row.max_concurrency)
                      (field (codes "cost") (num row.cost) end))))))))))

unfoldable pub only : List AccountRow → Option Json
unfolding account_json
only (row ∷ []) = some (account_json row)
only _ = none

-- `if (!a?.name) return { ok: false }`, and the text that the query compares. A name that is `true`,
-- a list or an object, which no account has, is refused here.
unfoldable pub name_of : Option Json → Option Text
unfolding required_string
name_of (some (num n)) = if ltb 0 n then some (print n) else none
name_of name = required_string name

-- The one account of the name that matches.
unfoldable pub find_account : (Text → Option Text) → List AccountRow → Json → Option Json
unfolding name_of legacy_account_matches only
find_account href rows (obj fs) = name_of (get (codes "name") fs) >>= λ name.
    only (select (legacy_account_matches href fs) (select (λ row. same row.name name) rows))
find_account href rows _ = none

unfoldable pub items_of : Option Json → Option Items
items_of (some (arr xs)) = some xs
items_of _ = none

-- `if (!test) return { ok: false }`
unfoldable pub require : Bool → Option (Unit {0})
require true = some tt
require false = none

unfoldable pub reconstruct : (Text → Option Text) → List AccountRow → Json → Option Json
unfolding items_of require find_account pick_server pick_virtual_key pick_model pick_routing
    pick_resilience pick_all
reconstruct href rows (obj fs) = items_of (get (codes "accounts") fs) >>= λ old_accounts.
    items_of (get (codes "models") fs) >>= λ old_models.
    items_of (get (codes "virtual_keys") fs) >>= λ old_keys.
    require (not (has_credentials [] (obj fs))) >>= λ _.
    pick_all (find_account href rows) old_accounts >>= λ accounts.
    pick_server (get (codes "server") fs) >>= λ server.
    pick_all pick_virtual_key old_keys >>= λ keys. pick_all pick_model old_models >>= λ models.
    pick_routing (get (codes "routing") fs) >>= λ routing.
    pick_resilience (get (codes "resilience") fs) >>= λ resilience. some (
      obj (
        field (codes "version") (num 2) (
          field (codes "metadata") (obj end) (
            field (codes "server") server (
              field (codes "virtual_keys") (arr keys) (
                field (codes "models") (arr models) (
                  field (codes "accounts") (arr accounts) (
                    field (codes "routing") routing
                      (field (codes "resilience") resilience end)))))))))
reconstruct href rows _ = none

-- `FORBIDDEN_SNAPSHOT_PATTERN.test(JSON.stringify(snapshot))`
unfoldable pub is_forbidden : Json → Bool
is_forbidden snapshot =
    let text = map to_lower (stringify snapshot) in
    any (λ part. contains text part)
      (codes "integration-secret"
        ∷ codes "dev-secret-change-me"
        ∷ codes "api_key"
        ∷ codes "access_token"
        ∷ codes "refresh_token"
        ∷ codes "id_token"
        ∷ codes "cookie"
        ∷ codes "session_key"
        ∷ [])

pub data Status : Type 0 where
  valid : (status : String) → Status
  invalid : Status

-- A row of config_versions.
pub record Version : Type 0 where
  pub version : ℕ
  pub status : Status
  pub snapshot : Json
  pub checksum : Text
  pub schema_version : ℕ
  pub errors : Items

pub record Outcome : Type 0 where
  pub reconstructed : ℕ
  pub invalid_count : ℕ

-- `done` is the row of snapshot_migration_state.
pub record State : Type 0 where
  pub versions : List Version
  pub done : Option Outcome

-- What a run takes from outside: the accounts, `sha256Canonical` and the texts of URLs.
pub record Source : Type 0 where
  pub accounts : List AccountRow
  pub digest : Json → Text
  pub href : Text → Option Text

unfoldable pub failure : Json
failure = obj (
    field (codes "code") (str (codes "snapshot_reconstruction_failed"))
      (field (codes "migration") (str (codes "002_snapshot_security")) end))

append_item : Items → Json → Items
append_item nil x = cons x nil
append_item (cons y ys) x = cons y (append_item ys x)

-- The snapshot that may replace the old one.
unfoldable pub safe_snapshot : Source → Json → Option Json
unfolding reconstruct is_forbidden
safe_snapshot source old = reconstruct source.href source.accounts old >>= λ snapshot.
    if is_forbidden snapshot then none else some snapshot

unfoldable pub sanitized : Source → Version → Option Json → Version
unfolding append_item failure
sanitized source row (some snapshot) = record row {
  snapshot = snapshot;
  checksum = source.digest snapshot;
  schema_version = 2;
}
sanitized source row none = record row { status = invalid; errors = append_item row.errors failure }

unfoldable pub sanitize_row : Source → Version → Version
unfolding safe_snapshot sanitized
sanitize_row source row = sanitized source row (safe_snapshot source row.snapshot)

unfoldable pub count_row : Option Json → Outcome → Outcome
count_row (some snapshot) o = record o { reconstructed = suc o.reconstructed }
count_row none o = record o { invalid_count = suc o.invalid_count }

unfoldable pub count_rows : Source → List Version → Outcome
unfolding safe_snapshot count_row
count_rows source [] = record { reconstructed = 0; invalid_count = 0 }
count_rows source (row ∷ rows) =
    count_row (safe_snapshot source row.snapshot) (count_rows source rows)

-- `none` stands for `{ skipped: true }`.
unfoldable pub sanitize_historical_config_versions : Source → State → State × Option Outcome
unfolding sanitize_row count_rows
sanitize_historical_config_versions source s = unless_done s.done
  where
    unless_done : Option Outcome → State × Option Outcome
    unless_done (some o) = (s, none)
    unless_done none =
        let outcome = count_rows source s.versions in
        (
          record { versions = map (sanitize_row source) s.versions; done = some outcome },
          some outcome,
        )
