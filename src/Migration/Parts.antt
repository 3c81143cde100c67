-- ===== src/Migration/Parts.antt =====
-- control-plane/lib/snapshot-migration.ts: the parts of a legacy snapshot that are picked, and the
-- test for credentials.
use papi.Common.{
  ℕ, suc, List, [], ◌∷◌, ◌++◌, Option, none, some, Bool, true, false, not, ◌&&◌, ◌||◌,
  if◌then◌else◌, ltb, length, map,
}
use papi.Common.Text.{Text, codes, same, member, to_lower}
use papi.Common.Json.{
  Json, null, bool, num, str, arr, obj, Items, nil, cons, Fields, end, field, get,
}

-- A step of a path into a value.
pub data Step : Type 0 where
  at : (index : ℕ) → Step
  under : (key : Text) → Step

abbrev pub starts_at : Text → List Step → Bool
starts_at key (under k ∷ at i ∷ path) = same k key
starts_at key _ = false

abbrev pub is_root : List Step → Bool
is_root [] = true
is_root (step ∷ path) = false

unfoldable pub credential_keys : List Text
credential_keys =
    codes "secret"
    ∷ codes "api_key"
    ∷ codes "access_token"
    ∷ codes "refresh_token"
    ∷ codes "id_token"
    ∷ codes "authorization"
    ∷ codes "cookie"
    ∷ codes "session"
    ∷ codes "session_key"
    ∷ []

-- The test of one property at a path.
unfoldable pub is_unexpected : List Step → Text → Bool
unfolding credential_keys
is_unexpected path key =
    let normalized = map to_lower key in
    let permitted =
      (is_root path && same normalized (codes "secret"))
      || (starts_at (codes "accounts") path && same normalized (codes "api_key")) in
    let plaintext = starts_at (codes "virtual_keys") path && same normalized (codes "key") in
    (not permitted && member normalized credential_keys) || plaintext

unfoldable mutual
  unfolding is_unexpected

  pub has_credentials : List Step → Json → Bool
  has_credentials path (arr xs) = items_have path 0 xs
  has_credentials path (obj fs) = fields_have path fs
  has_credentials path null = false
  has_credentials path (bool b) = false
  has_credentials path (num n) = false
  has_credentials path (str s) = false

  pub items_have : List Step → ℕ → Items → Bool
  items_have path i nil = false
  items_have path i (cons x xs) =
      has_credentials (path ++ at i ∷ []) x || items_have path (suc i) xs

  pub fields_have : List Step → Fields → Bool
  fields_have path end = false
  fields_have path (field k v fs) =
      is_unexpected path k || has_credentials (path ++ under k ∷ []) v || fields_have path fs

unfoldable pub required_string : Option Json → Option Text
required_string (some (str s)) = if ltb 0 (length s) then some s else none
required_string _ = none

-- `value ?? default` where `optionalString(value)`.
unfoldable pub optional_string : Text → Option Json → Option Text
unfolding required_string
optional_string default none = some default
optional_string default (some value) = required_string (some value)

-- `value.every(requiredString)`
unfoldable pub all_strings : Items → Bool
all_strings nil = true
all_strings (cons (str s) xs) = ltb 0 (length s) && all_strings xs
all_strings (cons x xs) = false

unfoldable pub string_array : Option Json → Option Items
unfolding all_strings
string_array (some (arr xs)) = if all_strings xs then some xs else none
string_array _ = none

unfoldable pub positive_integer : Option Json → Option ℕ
positive_integer (some (num n)) = if ltb 0 n then some n else none
positive_integer _ = none

unfoldable pub optional_positive_integer : ℕ → Option Json → Option ℕ
unfolding positive_integer
optional_positive_integer default none = some default
optional_positive_integer default (some value) = positive_integer (some value)

-- What is checked first, and the rest; `none` stands for `null` and for `{ ok: false }`.
infixl 5 ◌>>=◌
abbrev pub ◌>>=◌ {ℓ κ} : {A : Type ℓ} {B : Type κ} → Option A → (A → Option B) → Option B
none >>= rest = none
some a >>= rest = rest a

unfoldable pub pick_server : Option Json → Option Json
unfolding optional_string
pick_server (some (obj fs)) = optional_string (codes ":8080") (get (codes "addr") fs) >>= λ addr.
    optional_string (codes "10s") (get (codes "read_timeout") fs) >>= λ read.
    optional_string (codes "0s") (get (codes "write_timeout") fs) >>= λ write. some (
      obj (
        field (codes "addr") (str addr) (
          field (codes "read_timeout") (str read) (field (codes "write_timeout") (str write) end))))
pick_server _ = none

unfoldable pub pick_virtual_key : Json → Option Json
unfolding required_string string_array positive_integer
pick_virtual_key (obj fs) = required_string (get (codes "name") fs) >>= λ name.
    required_string (get (codes "key_hash") fs) >>= λ hash.
    string_array (get (codes "models") fs) >>= λ models.
    positive_integer (get (codes "rpm") fs) >>= λ rpm. some (
      obj (
        field (codes "name") (str name) (
          field (codes "key_hash") (str hash)
            (field (codes "models") (arr models) (field (codes "rpm") (num rpm) end)))))
pick_virtual_key _ = none

unfoldable pub some_item : Items → Option Items
some_item nil = none
some_item (cons x xs) = some (cons x xs)

unfoldable pub pick_model : Json → Option Json
unfolding required_string string_array some_item
pick_model (obj fs) = required_string (get (codes "alias") fs) >>= λ alias.
    required_string (get (codes "upstream_model") fs) >>= λ model.
    string_array (get (codes "accounts") fs) >>= λ accounts. some_item accounts >>= λ names. some (
      obj (
        field (codes "alias") (str alias)
          (field (codes "upstream_model") (str model) (field (codes "accounts") (arr names) end))))
pick_model _ = none

unfoldable pub pick_routing : Option Json → Option Json
unfolding optional_string positive_integer
pick_routing (some (obj fs)) =
    optional_string (codes "balanced") (get (codes "strategy") fs) >>= λ strategy.
    optional_string (codes "1h") (get (codes "sticky_ttl") fs) >>= λ ttl.
    positive_integer (get (codes "max_attempts") fs) >>= λ attempts. some (
      obj (
        field (codes "strategy") (str strategy)
          (field (codes "sticky_ttl") (str ttl) (field (codes "max_attempts") (num attempts) end))))
pick_routing _ = none

unfoldable pub pick_resilience : Option Json → Option Json
unfolding optional_string optional_positive_integer
pick_resilience (some (obj fs)) =
    optional_string (codes "30s") (get (codes "cooldown") fs) >>= λ cooldown.
    optional_string (codes "1m") (get (codes "circuit_reset") fs) >>= λ reset.
    optional_positive_integer 3 (get (codes "circuit_failures") fs) >>= λ failures. some (
      obj (
        field (codes "cooldown") (str cooldown) (
          field (codes "circuit_failures") (num failures)
            (field (codes "circuit_reset") (str reset) end))))
pick_resilience _ = none

-- Every item is picked, or none is.
unfoldable pub pick_all : (Json → Option Json) → Items → Option Items
pick_all pick nil = some nil
pick_all pick (cons x xs) = pick x >>= λ y. pick_all pick xs >>= λ ys. some (cons y ys)
