-- ===== src/Migration/Picked.antt =====
-- On the names of properties in the parts that `reconstruct` of
-- control-plane/lib/snapshot-migration.ts picks.
use papi.Common.{
  ◌≡◌, refl, sym, List, [], ◌∷◌, Option, none, some, true, false, ◌||◌, Bool, map, length, select,
  Bool-cases, inl, inr, arith, ltb, &&_split,
}
use papi.Common.Text.{Text, codes, same, member, to_lower}
use papi.Common.Json.{
  Json, null, bool, num, str, arr, obj, Items, Fields, nil, cons, end, field, get,
}
use papi.Migration.{
  AccountRow, all_strings, string_array, required_string, optional_string, positive_integer,
  optional_positive_integer, some_item, pick_server, pick_virtual_key, pick_model, pick_routing,
  pick_resilience, pick_all, find_account, name_of, legacy_account_matches, only, account_json,
  ◌>>=◌,
}

pub >>=-eq-some {ℓ κ} :
    {A : Type ℓ} {B : Type κ} (first : Option A) (rest : A → Option B) {last : B}
    → (first >>= rest) ≡ some last
    → (value : A) × (first ≡ some value) × (rest value ≡ some last)
>>=-eq-some none rest h = cc
>>=-eq-some (some value) rest h = (value, refl, h)

-- The names of properties that hold a credential, in lower case.
abbrev pub secret_names : List Text
secret_names =
    codes "key"
    ∷ codes "secret"
    ∷ codes "client_secret"
    ∷ codes "api_key"
    ∷ codes "apikey"
    ∷ codes "access_token"
    ∷ codes "refresh_token"
    ∷ codes "id_token"
    ∷ codes "authorization"
    ∷ codes "password"
    ∷ codes "token"
    ∷ codes "cookie"
    ∷ codes "session"
    ∷ codes "session_key"
    ∷ []

-- Whether a property at any depth of a value has such a name, in any case.
unfoldable mutual
  pub names_secret : Json → Bool
  names_secret (obj fs) = fields_name_secret fs
  names_secret (arr xs) = items_name_secret xs
  names_secret null = false
  names_secret (bool b) = false
  names_secret (num n) = false
  names_secret (str s) = false

  pub fields_name_secret : Fields → Bool
  fields_name_secret end = false
  fields_name_secret (field k v fs) =
      member (map to_lower k) secret_names || names_secret v || fields_name_secret fs

  pub items_name_secret : Items → Bool
  items_name_secret nil = false
  items_name_secret (cons x xs) = names_secret x || items_name_secret xs

abbrev pub IsClean : Json → Type 0
IsClean j = names_secret j ≡ false

pub pick_server-IsClean : (v : Option Json) (j : Json) → pick_server v ≡ some j → IsClean j
unfolding pick_server names_secret member same
pick_server-IsClean (some (obj fs)) j h =
    let (a, e1, h1) = >>=-eq-some (optional_string (codes ":8080") (get (codes "addr") fs)) _ h in
    let (b, e2, h2) =
      >>=-eq-some (optional_string (codes "10s") (get (codes "read_timeout") fs)) _ h1 in
    let (c, e3, h3) =
      >>=-eq-some (optional_string (codes "0s") (get (codes "write_timeout") fs)) _ h2 in
    let is : j
        ≡ obj (
            field (codes "addr") (str a)
              (field (codes "read_timeout") (str b) (field (codes "write_timeout") (str c) end))) =
      ground (arith, h3) in
    rw is (ground arith)
pick_server-IsClean none j h = cc
pick_server-IsClean (some null) j h = cc
pick_server-IsClean (some (bool b)) j h = cc
pick_server-IsClean (some (num n)) j h = cc
pick_server-IsClean (some (str s)) j h = cc
pick_server-IsClean (some (arr xs)) j h = cc

pub pick_routing-IsClean : (v : Option Json) (j : Json) → pick_routing v ≡ some j → IsClean j
unfolding pick_routing names_secret member same
pick_routing-IsClean (some (obj fs)) j h =
    let (a, e1, h1) =
      >>=-eq-some (optional_string (codes "balanced") (get (codes "strategy") fs)) _ h in
    let (b, e2, h2) =
      >>=-eq-some (optional_string (codes "1h") (get (codes "sticky_ttl") fs)) _ h1 in
    let (c, e3, h3) = >>=-eq-some (positive_integer (get (codes "max_attempts") fs)) _ h2 in
    let is : j
        ≡ obj (
            field (codes "strategy") (str a)
              (field (codes "sticky_ttl") (str b) (field (codes "max_attempts") (num c) end))) =
      ground (arith, h3) in
    rw is (ground arith)
pick_routing-IsClean none j h = cc
pick_routing-IsClean (some null) j h = cc
pick_routing-IsClean (some (bool b)) j h = cc
pick_routing-IsClean (some (num n)) j h = cc
pick_routing-IsClean (some (str s)) j h = cc
pick_routing-IsClean (some (arr xs)) j h = cc

pub pick_resilience-IsClean : (v : Option Json) (j : Json) → pick_resilience v ≡ some j → IsClean j
unfolding pick_resilience names_secret member same
pick_resilience-IsClean (some (obj fs)) j h =
    let (a, e1, h1) = >>=-eq-some (optional_string (codes "30s") (get (codes "cooldown") fs)) _ h in
    let (b, e2, h2) =
      >>=-eq-some (optional_string (codes "1m") (get (codes "circuit_reset") fs)) _ h1 in
    let (c, e3, h3) =
      >>=-eq-some (optional_positive_integer 3 (get (codes "circuit_failures") fs)) _ h2 in
    let is : j
        ≡ obj (
            field (codes "cooldown") (str a) (
              field (codes "circuit_failures") (num c)
                (field (codes "circuit_reset") (str b) end))) =
      ground (arith, h3) in
    rw is (ground arith)
pick_resilience-IsClean none j h = cc
pick_resilience-IsClean (some null) j h = cc
pick_resilience-IsClean (some (bool b)) j h = cc
pick_resilience-IsClean (some (num n)) j h = cc
pick_resilience-IsClean (some (str s)) j h = cc
pick_resilience-IsClean (some (arr xs)) j h = cc

account_json-IsClean : (row : AccountRow) → IsClean (account_json row)
unfolding account_json names_secret member same
account_json-IsClean row = ground arith

only-IsClean : (rows : List AccountRow) (j : Json) → only rows ≡ some j → IsClean j
unfolding only
only-IsClean [] j h = cc
only-IsClean (row ∷ []) j h =
    let is : j ≡ account_json row = ground (arith, h) in rw is (account_json-IsClean row)
only-IsClean (row ∷ next ∷ rows) j h = cc

pub find_account-IsClean :
    (href : Text → Option Text) (rows : List AccountRow) (old j : Json)
    → find_account href rows old ≡ some j
    → IsClean j
unfolding find_account
find_account-IsClean href rows (obj fs) j h =
    let (name, e, h1) = >>=-eq-some (name_of (get (codes "name") fs)) _ h in
    only-IsClean (select (legacy_account_matches href fs) (select (λ row. same row.name name) rows))
      j h1
find_account-IsClean href rows null j h = cc
find_account-IsClean href rows (bool b) j h = cc
find_account-IsClean href rows (num n) j h = cc
find_account-IsClean href rows (str s) j h = cc
find_account-IsClean href rows (arr xs) j h = cc

-- Picked items are clean when each is.
pub pick_all-clean :
    (pick : Json → Option Json) (xs ys : Items)
    → ((x y : Json) → pick x ≡ some y → IsClean y)
    → pick_all pick xs ≡ some ys
    → items_name_secret ys ≡ false
unfolding pick_all names_secret
pick_all-clean pick nil ys f h = let is : ys ≡ nil = ground (arith, h) in rw is refl
pick_all-clean pick (cons x xs) ys f h =
    let (y, e1, h1) = >>=-eq-some (pick x) _ h in
    let (zs, e2, h2) = >>=-eq-some (pick_all pick xs) _ h1 in
    let is : ys ≡ cons y zs = ground (arith, h2) in
    rw (is, f x y e1) (pick_all-clean pick xs zs f e2)

texts-clean : (xs : Items) → all_strings xs ≡ true → items_name_secret xs ≡ false
unfolding all_strings names_secret
texts-clean nil h = refl
texts-clean (cons (str s) xs) h = texts-clean xs (&&_split (ltb 0 (length s)) _ h).1
texts-clean (cons null xs) h = cc
texts-clean (cons (bool b) xs) h = cc
texts-clean (cons (num n) xs) h = cc
texts-clean (cons (arr ys) xs) h = cc
texts-clean (cons (obj fs) xs) h = cc

string_array-clean :
    (v : Option Json) (xs : Items) → string_array v ≡ some xs → items_name_secret xs ≡ false
unfolding string_array
string_array-clean (some (arr ys)) xs h = elim (Bool-cases (all_strings ys)) [
  | inl b ↦ let is : ys ≡ xs = ground (arith, b, h) in rw (sym is) (texts-clean ys b)
  | inr b ↦ ground (arith, b, h)
]
string_array-clean none xs h = cc
string_array-clean (some null) xs h = cc
string_array-clean (some (bool b)) xs h = cc
string_array-clean (some (num n)) xs h = cc
string_array-clean (some (str s)) xs h = cc
string_array-clean (some (obj fs)) xs h = cc

pub pick_virtual_key-IsClean : (v j : Json) → pick_virtual_key v ≡ some j → IsClean j
unfolding pick_virtual_key names_secret member same
pick_virtual_key-IsClean (obj fs) j h =
    let (a, e1, h1) = >>=-eq-some (required_string (get (codes "name") fs)) _ h in
    let (b, e2, h2) = >>=-eq-some (required_string (get (codes "key_hash") fs)) _ h1 in
    let (xs, e3, h3) = >>=-eq-some (string_array (get (codes "models") fs)) _ h2 in
    let (n, e4, h4) = >>=-eq-some (positive_integer (get (codes "rpm") fs)) _ h3 in
    let is : j
        ≡ obj (
            field (codes "name") (str a) (
              field (codes "key_hash") (str b)
                (field (codes "models") (arr xs) (field (codes "rpm") (num n) end)))) =
      ground (arith, h4) in
    rw is (ground (arith, string_array-clean (get (codes "models") fs) xs e3))
pick_virtual_key-IsClean null j h = cc
pick_virtual_key-IsClean (bool b) j h = cc
pick_virtual_key-IsClean (num n) j h = cc
pick_virtual_key-IsClean (str s) j h = cc
pick_virtual_key-IsClean (arr xs) j h = cc

some_item-same : (xs ys : Items) → some_item xs ≡ some ys → xs ≡ ys
unfolding some_item
some_item-same nil ys h = cc
some_item-same (cons x xs) ys h = ground (arith, h)

pub pick_model-IsClean : (v j : Json) → pick_model v ≡ some j → IsClean j
unfolding pick_model names_secret member same
pick_model-IsClean (obj fs) j h =
    let (a, e1, h1) = >>=-eq-some (required_string (get (codes "alias") fs)) _ h in
    let (b, e2, h2) = >>=-eq-some (required_string (get (codes "upstream_model") fs)) _ h1 in
    let (xs, e3, h3) = >>=-eq-some (string_array (get (codes "accounts") fs)) _ h2 in
    let (ys, e4, h4) = >>=-eq-some (some_item xs) _ h3 in
    let is : j
        ≡ obj (
            field (codes "alias") (str a)
              (field (codes "upstream_model") (str b) (field (codes "accounts") (arr ys) end))) =
      ground (arith, h4) in
    rw (is, sym (some_item-same xs ys e4))
      (ground (arith, string_array-clean (get (codes "accounts") fs) xs e3))
pick_model-IsClean null j h = cc
pick_model-IsClean (bool b) j h = cc
pick_model-IsClean (num n) j h = cc
pick_model-IsClean (str s) j h = cc
pick_model-IsClean (arr xs) j h = cc
