-- ===== src/Migration/Clean.antt =====
-- On the credentials in what `reconstruct` of control-plane/lib/snapshot-migration.ts gives.
use papi.Common.{◌≡◌, refl, List, [], Option, some, false, not, arith}
use papi.Common.Text.{Text, codes, same, member}
use papi.Common.Json.{Json, null, bool, num, str, arr, obj, end, field, get}
use papi.Migration.{
  AccountRow, has_credentials, pick_server, pick_virtual_key, pick_model, pick_routing,
  pick_resilience, pick_all, find_account, items_of, require, reconstruct,
}
use papi.Migration.Picked.{
  >>=-eq-some, names_secret, pick_server-IsClean, pick_routing-IsClean, pick_resilience-IsClean,
  find_account-IsClean, pick_all-clean, pick_virtual_key-IsClean, pick_model-IsClean,
}

-- A snapshot that `reconstruct` gives has, at any depth, its root and its accounts included, no
-- property with one of the fourteen names of `secret_names`, in any case, whatever the legacy snapshot
-- and the accounts are.
pub reconstruct-clean :
    (href : Text → Option Text) (rows : List AccountRow) (old new : Json)
    → reconstruct href rows old ≡ some new
    → names_secret new ≡ false
unfolding reconstruct names_secret member same
reconstruct-clean href rows (obj fs) new h =
    let (rs, e1, h1) = >>=-eq-some (items_of (get (codes "accounts") fs)) _ h in
    let (ms, e2, h2) = >>=-eq-some (items_of (get (codes "models") fs)) _ h1 in
    let (ks, e3, h3) = >>=-eq-some (items_of (get (codes "virtual_keys") fs)) _ h2 in
    let (u, e4, h4) = >>=-eq-some (require (not (has_credentials [] (obj fs)))) _ h3 in
    let (accounts, e5, h5) = >>=-eq-some (pick_all (find_account href rows) rs) _ h4 in
    let (server, e6, h6) = >>=-eq-some (pick_server (get (codes "server") fs)) _ h5 in
    let (keys, e7, h7) = >>=-eq-some (pick_all pick_virtual_key ks) _ h6 in
    let (models, e8, h8) = >>=-eq-some (pick_all pick_model ms) _ h7 in
    let (routing, e9, h9) = >>=-eq-some (pick_routing (get (codes "routing") fs)) _ h8 in
    let (resilience, e10, h10) = >>=-eq-some (pick_resilience (get (codes "resilience") fs)) _ h9 in
    let is : new
        ≡ obj (
            field (codes "version") (num 2) (
              field (codes "metadata") (obj end) (
                field (codes "server") server (
                  field (codes "virtual_keys") (arr keys) (
                    field (codes "models") (arr models) (
                      field (codes "accounts") (arr accounts) (
                        field (codes "routing") routing
                          (field (codes "resilience") resilience end)))))))) =
      ground (arith, h10) in
    rw
      (
        is,
        pick_server-IsClean (get (codes "server") fs) server e6,
        pick_all-clean pick_virtual_key ks keys pick_virtual_key-IsClean e7,
        pick_all-clean pick_model ms models pick_model-IsClean e8,
        pick_all-clean (find_account href rows) rs accounts (find_account-IsClean href rows) e5,
        pick_routing-IsClean (get (codes "routing") fs) routing e9,
        pick_resilience-IsClean (get (codes "resilience") fs) resilience e10,
      )
      refl
reconstruct-clean href rows null new h = cc
reconstruct-clean href rows (bool b) new h = cc
reconstruct-clean href rows (num n) new h = cc
reconstruct-clean href rows (str s) new h = cc
reconstruct-clean href rows (arr xs) new h = cc
