-- ===== src/Snapshot/Closed.antt =====
-- On the references in what compileDeclarativeSnapshot of control-plane/lib/snapshots.ts gives.
use papi.Common.{
  ◌<◌, ◌≡◌, refl, ap, String, List, [], ◌∷◌, map, Option, none, some, Bool, true, ◌&&◌,
  if◌then◌else◌, ltb, length, select, find, str_eq, str_eq_refl, includes, flat_map, Memᴰ, All,
  All-append, All-select, Bool-cases, inl, inr, arith, ltb→lt, &&_split,
}
use papi.Common.Result.{ok, >>=-eq-ok, >>-eq-ok, guard-eq-ok}
use papi.Proxies.{Engine}
use papi.Snapshot.Fallbacks.{validate_fallback_chains}
use papi.Snapshot.Tables.{AccountRow, AliasRow, Mapping, Tables, ModelEntry, Snapshot}
use papi.Snapshot.Settings.{proxies_of}
use papi.Snapshot.Compile.{
  account_entry, enabled_accounts, mapped_alias, mapped_account, mapped_rows, mapped_names,
  pool_rows, account_names, model_entry, model_entries, validate_cache_modes, fallback_model,
  enabled_keys, enabled_models, assemble, compile_declarative_snapshot,
}

-- The accounts that a snapshot of the tables has, by their names.
abbrev names_of : List AccountRow → List String
names_of = map (λ a. a.name)

IsListed : Tables → String → Type 0
IsListed t name = includes (names_of (enabled_accounts t)) name ≡ true

Memᴰ-find :
    (p : AccountRow → Bool) (xs : List AccountRow) (a : AccountRow) → find p xs ≡ some a → Memᴰ a xs
Memᴰ-find p [] a h = cc
Memᴰ-find p (x ∷ xs) a h = elim (Bool-cases (p x)) [
  | inl b ↦ Memᴰ.head (ground (arith, b, h))
  | inr b ↦ Memᴰ.tail (Memᴰ-find p xs a (ground (arith, b, h)))
]

All-Memᴰ {ℓ κ} :
    {A : Type ℓ} (P : A → Type κ) (xs : List A) → ((x : A) → Memᴰ x xs → P x) → All P xs
All-Memᴰ P [] h = tt
All-Memᴰ P (x ∷ xs) h = (h x (Memᴰ.head refl), All-Memᴰ P xs λ y m. h y (Memᴰ.tail m))

All-flat_map {ℓ κ μ} :
    {A : Type ℓ} {B : Type κ} (P : B → Type μ) (f : A → List B) (xs : List A)
    → All (λ x. All P (f x)) xs
    → All P (flat_map f xs)
All-flat_map P f [] h = tt
All-flat_map P f (x ∷ xs) (q, h) = All-append P (f x) (flat_map f xs) q (All-flat_map P f xs h)

All-map {ℓ κ μ} :
    {A : Type ℓ} {B : Type κ} (P : B → Type μ) (f : A → B) (xs : List A)
    → All (λ x. P (f x)) xs
    → All P (map f xs)
All-map P f [] h = tt
All-map P f (x ∷ xs) (q, h) = (q, All-map P f xs h)

listed-Memᴰ :
    (xs : List AccountRow) (a : AccountRow)
    → Memᴰ a xs
    → a.enabled ≡ true
    → includes (names_of (select (λ b. b.enabled) xs)) a.name ≡ true
listed-Memᴰ [] a m e = elim m [ ]
listed-Memᴰ (x ∷ xs) a (Memᴰ.head q) e = ground (arith, q, e, str_eq_refl a.name)
listed-Memᴰ (x ∷ xs) a (Memᴰ.tail m) e = ground (arith, listed-Memᴰ xs a m e)

account-IsListed :
    (t : Tables) (a : AccountRow) → Memᴰ a t.accounts → a.enabled ≡ true → IsListed t a.name
unfolding IsListed enabled_accounts
account-IsListed t a m e = listed-Memᴰ t.accounts a m e

mapped_alias-IsListed :
    (t : Tables) (m : Mapping) (a : AccountRow) (row : Option AliasRow)
    → IsListed t a.name
    → All (λ r. IsListed t r.account_name) (mapped_alias m a row)
unfolding mapped_alias
mapped_alias-IsListed t m a none h = tt
mapped_alias-IsListed t m a (some row) h = (h, tt)

mapped_account-IsListed :
    (t : Tables) (m : Mapping) (a : Option AccountRow)
    → ((b : AccountRow) → a ≡ some b → Memᴰ b t.accounts)
    → All (λ r. IsListed t r.account_name) (mapped_account t m a)
unfolding mapped_account
mapped_account-IsListed t m none h = tt
mapped_account-IsListed t m (some a) h = elim (Bool-cases (m.enabled && a.enabled)) [
  | inl b ↦ rw b (
      mapped_alias-IsListed t m a (find (λ row. str_eq row.id m.alias_id) t.aliases)
        (account-IsListed t a (h a refl) (&&_split m.enabled a.enabled b).1))
  | inr b ↦ rw b tt
]

mapped_rows-IsListed : (t : Tables) → All (λ r. IsListed t r.account_name) (mapped_rows t)
unfolding mapped_rows
mapped_rows-IsListed t =
    All-flat_map (λ r. IsListed t r.account_name)
      (λ m. mapped_account t m (find (λ a. str_eq a.id m.account_id) t.accounts)) t.mappings
      (All-Memᴰ _ t.mappings λ m k.
        mapped_account-IsListed t m (find (λ a. str_eq a.id m.account_id) t.accounts)
          λ b e. Memᴰ-find (λ a. str_eq a.id m.account_id) t.accounts b e)

All-constant {ℓ κ} : {A : Type ℓ} (P : Type κ) (xs : List A) → P → All (λ x. P) xs
All-constant P [] p = tt
All-constant P (x ∷ xs) p = (p, All-constant P xs p)

pool_rows-IsListed :
    (t : Tables) (row : AliasRow) (provider : String) → All (IsListed t) (pool_rows t row provider)
unfolding pool_rows
pool_rows-IsListed t row provider =
    let offered = λ (a : AccountRow).
      select
        (λ d.
          str_eq d.provider_id provider
          && str_eq d.account_id a.id
          && str_eq d.upstream_model row.upstream_model
          && d.available)
        t.discovered in
    All-flat_map (IsListed t)
      (λ a.
        if str_eq a.provider_id provider && a.enabled then map (λ d. a.name) (offered a) else [])
      t.accounts
      (All-Memᴰ _ t.accounts λ a m. elim (Bool-cases (str_eq a.provider_id provider && a.enabled)) [
        | inl b ↦ rw b (
            All-map (IsListed t) (λ d. a.name) (offered a)
              (All-constant (IsListed t a.name) (offered a)
                (account-IsListed t a m (&&_split (str_eq a.provider_id provider) a.enabled b).1)))
        | inr b ↦ rw b tt
      ])

account_names-IsListed :
    (t : Tables) (row : AliasRow) (provider : Option String)
    → All (IsListed t) (account_names t row provider)
unfolding account_names mapped_names
account_names-IsListed t row none =
    All-map (IsListed t) (λ r. r.account_name)
      (select (λ r. str_eq r.alias row.alias) (mapped_rows t))
      (All-select (λ r. IsListed t r.account_name) (λ r. str_eq r.alias row.alias) (mapped_rows t)
        (mapped_rows-IsListed t))
account_names-IsListed t row (some provider) = pool_rows-IsListed t row provider

-- A model has accounts, and all of them are those of the snapshot.
abbrev pub IsServed : List String → ModelEntry → Type 0
IsServed names m = (0 < length m.accounts) × All (λ name. includes names name ≡ true) m.accounts

model_entry-IsServed :
    (t : Tables) (row : AliasRow) (m : ModelEntry)
    → model_entry t row ≡ ok m
    → IsServed (names_of (enabled_accounts t)) m
unfolding model_entry IsListed
model_entry-IsServed t row m h =
    let (some_names, e) =
      guard-eq-ok (ltb 0 (length (account_names t row row.provider_id))) _ _ h in
    let q : m.accounts ≡ account_names t row row.provider_id = ground (arith, e) in
    rw q (ltb→lt _ _ some_names, account_names-IsListed t row row.provider_id)

model_entries-IsServed :
    (t : Tables) (rows : List AliasRow) (ms : List ModelEntry)
    → model_entries t rows ≡ ok ms
    → All (IsServed (names_of (enabled_accounts t))) ms
unfolding model_entries
model_entries-IsServed t [] ms h = ground (arith, h)
model_entries-IsServed t (row ∷ rows) ms h =
    let (m, e, h1) = >>=-eq-ok (model_entry t row) _ h in
    let (rest, f, h2) = >>=-eq-ok (model_entries t rows) _ h1 in
    let q : ms ≡ m ∷ rest = ground (arith, h2) in
    rw q (model_entry-IsServed t row m e, model_entries-IsServed t rows rest f)

entry_names : (xs : List AccountRow) → map (λ e. e.name) (map account_entry xs) ≡ names_of xs
unfolding account_entry
entry_names [] = refl
entry_names (x ∷ xs) = ap (λ ns. x.name ∷ ns) (entry_names xs)

-- When `compileDeclarativeSnapshot` gives a snapshot, the snapshot has a virtual key, each of its
-- models has an account, the accounts of its models are accounts of the snapshot, and its models
-- pass the checks of their fallbacks and of their caches.
pub compile_declarative_snapshot-IsServed :
    (engine : Engine) (t : Tables) (s : Snapshot)
    → compile_declarative_snapshot engine t ≡ ok s
    → (0 < length s.virtual_keys)
      × All (IsServed (map (λ a. a.name) s.accounts)) s.models
      × (validate_fallback_chains (map fallback_model s.models) ≡ ok tt)
      × (validate_cache_modes s.models ≡ ok tt)
unfolding compile_declarative_snapshot enabled_models assemble
compile_declarative_snapshot-IsServed engine t s h =
    let (proxies, e1, h1) = >>=-eq-ok (proxies_of engine t.proxy_pool) _ h in
    let (models, e2, h2) = >>=-eq-ok (enabled_models t) _ h1 in
    let (fallbacks, h3) = >>-eq-ok (validate_fallback_chains (map fallback_model models)) _ h2 in
    let (caches, h4) = >>-eq-ok (validate_cache_modes models) _ h3 in
    let (some_key, h5) = guard-eq-ok (ltb 0 (length (enabled_keys t))) _ _ h4 in
    let q : s ≡ assemble t proxies models = ground (arith, h5) in
    rw q (
      ltb→lt _ _ some_key,
      rw (entry_names (enabled_accounts t))
          (model_entries-IsServed t (select (λ row. row.enabled) t.aliases) models e2),
      fallbacks,
      caches,
    )
