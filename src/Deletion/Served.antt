-- ===== src/Deletion/Served.antt =====
-- On the tables after deleteAccountResource of control-plane/lib/resource-deletion.ts.
use papi.Common.{
  ◌≡◌, refl, String, List, [], ◌∷◌, some, Bool, false, not, any, find, select, update_where, str_eq,
  arith,
}
use papi.Common.Result.{ok}
use papi.Snapshot.Tables.{ModelRow}
use papi.Deletion.{
  Account, Alias, AliasAccount, Store, disabled, is_orphan, is_unserved, remove_account,
  delete_account_resource,
}

any-select-not {ℓ} :
    {A : Type ℓ} (p : A → Bool) (xs : List A) → any p (select (λ x. not (p x)) xs) ≡ false
any-select-not p [] = refl
any-select-not p (x ∷ xs) = ground (arith, any-select-not p xs)

-- The aliases that are disabled do not pass the test any more.
any-disabled :
    (p : Alias → Bool) (rows : List Alias)
    → ((a : Alias) → p (disabled a) ≡ false)
    → any p (update_where p disabled rows) ≡ false
any-disabled p [] h = refl
any-disabled p (a ∷ rows) h = ground (arith, h a, any-disabled p rows h)

any-still :
    (p q : Alias → Bool) (rows : List Alias)
    → ((a : Alias) → q (disabled a) ≡ false)
    → any q rows ≡ false
    → any q (update_where p disabled rows) ≡ false
any-still p q [] h n = refl
any-still p q (a ∷ rows) h n = ground (arith, h a, any-still p q rows h)

disabled-is_orphan :
    (mappings : List AliasAccount) (a : Alias) → is_orphan mappings (disabled a) ≡ false
unfolding is_orphan
disabled-is_orphan mappings a = refl

disabled-is_unserved :
    (provider : String) (accounts : List Account) (discovered : List ModelRow) (a : Alias)
    → is_unserved provider accounts discovered (disabled a) ≡ false
unfolding is_unserved
disabled-is_unserved provider accounts discovered a = refl

-- Nothing of an account is left: no row of accounts, of its operations, mappings and models; and no
-- alias is enabled that has neither a provider nor a mapping, or that is the provider's and that no
-- enabled account of the provider serves.
abbrev pub IsGone : Account → Store → Type 0
IsGone a t =
    (any (λ b. str_eq b.id a.id) t.accounts ≡ false)
    × (any (λ o. str_eq o a.id) t.operations ≡ false)
    × (any (λ m. str_eq m.account_id a.id) t.mappings ≡ false)
    × (any (λ d. str_eq d.account_id a.id) t.discovered ≡ false)
    × (any (is_orphan t.mappings) t.aliases ≡ false)
    × (any (is_unserved a.provider_id t.accounts t.discovered) t.aliases ≡ false)

remove_account-IsGone : (a : Account) (s : Store) → IsGone a (remove_account a s)
unfolding remove_account
remove_account-IsGone a s =
    let accounts = select (λ b. not (str_eq b.id a.id)) s.accounts in
    let mappings = select (λ m. not (str_eq m.account_id a.id)) s.mappings in
    let discovered = select (λ d. not (str_eq d.account_id a.id)) s.discovered in
    (
      any-select-not (λ b. str_eq b.id a.id) s.accounts,
      any-select-not (λ o. str_eq o a.id) s.operations,
      any-select-not (λ m. str_eq m.account_id a.id) s.mappings,
      any-select-not (λ d. str_eq d.account_id a.id) s.discovered,
      any-still (is_unserved a.provider_id accounts discovered) (is_orphan mappings)
          (update_where (is_orphan mappings) disabled s.aliases) (disabled-is_orphan mappings)
          (any-disabled (is_orphan mappings) s.aliases (disabled-is_orphan mappings)),
      any-disabled (is_unserved a.provider_id accounts discovered)
          (update_where (is_orphan mappings) disabled s.aliases)
          (disabled-is_unserved a.provider_id accounts discovered),
    )

-- The deletion of an account that is there succeeds, and then nothing of the account is left: no row
-- of accounts, provider_operations, model_account_mappings and discovered_models refers to it, and
-- of the aliases without a provider and of the aliases of its provider only those stay enabled that
-- have a mapping, or that an enabled account of the provider serves.
pub delete_account_resource-IsGone :
    (id : String) (s : Store) (a : Account)
    → find (λ b. str_eq b.id id) s.accounts ≡ some a
    → (t : Store) × (delete_account_resource id s ≡ ok t) × IsGone a t
unfolding delete_account_resource
delete_account_resource-IsGone id s a found =
    (remove_account a s, rw found refl, remove_account-IsGone a s)
