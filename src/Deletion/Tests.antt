-- ===== src/Deletion/Tests.antt =====
-- Runs of control-plane/lib/resource-deletion.ts on concrete tables.
use papi.Common.{◌≡◌, refl, [], ◌∷◌, none, some, true, false}
use papi.Common.Result.{ok}
use papi.Deletion.{Account, Store, delete_account_resource, delete_provider_resource}
use papi.Deletion.Served.{IsGone, delete_account_resource-IsGone}

abbrev account : Account
account = record { id = "a1"; provider_id = "p"; secret_record_id = some "s1"; enabled = true }

abbrev store : Store
store = record {
  providers = "p" ∷ [];
  accounts = account ∷ [];
  operations = "a1" ∷ "a2" ∷ [];
  mappings = record { alias_id = "m2"; account_id = "a1" } ∷ [];
  aliases =
      record { id = "m1"; upstream_model = "gpt"; provider_id = some "p"; enabled = true }
      ∷ record { id = "m2"; upstream_model = "gpt"; provider_id = none; enabled = true }
      ∷ [];
  discovered =
      record { provider_id = "p"; account_id = "a1"; upstream_model = "gpt"; available = true }
      ∷ [];
  secrets = "s1" ∷ "s2" ∷ [];
}

delete_account_resource-IsGone_example :
    (t : Store) × (delete_account_resource "a1" store ≡ ok t) × IsGone account t
delete_account_resource-IsGone_example = delete_account_resource-IsGone "a1" store account refl

-- The provider's account, its secret and its aliases' availability go with the provider.
provider_deleted :
    delete_provider_resource "p" store
    ≡ ok (
      record {
        providers = [];
        accounts = [];
        operations = "a2" ∷ [];
        mappings = [];
        aliases =
            record { id = "m1"; upstream_model = "gpt"; provider_id = none; enabled = false }
            ∷ record { id = "m2"; upstream_model = "gpt"; provider_id = none; enabled = false }
            ∷ [];
        discovered = [];
        secrets = "s2" ∷ [];
      },
      1,
    )
unfolding delete_provider_resource
provider_deleted = refl
