-- ===== src/Routes/Changes.antt =====
-- On the aliases and keys under the changes of Routes, as a step relation.
use papi.Common.{
  ◌≡◌, refl, String, List, [], ◌∷◌, Bool, true, false, not, ◌&&◌, any, all, find, update_where,
  str_eq, includes, inl, inr, ◌⊎◌, arith,
}
use papi.Common.Text.{same}
use papi.Common.Distinct.{distinct}
use papi.Common.Result.{Result, ok, >>=-eq-ok, >>-eq-ok, or_throw-eq-ok, guard-eq-ok}
use papi.Snapshot.Tables.{AliasRow, KeyRow}
use papi.Snapshot.Compile.{compile_declarative_snapshot}
use papi.Routes.{
  State, Host, Selection, folded, with_draft, assert_alias_available, validate_public_alias,
  is_offered, selected_row, import_selection, rename_rows, rename_model_alias, drop_alias,
  delete_model_route, is_provider_model, update_provider_model_strategy, valid_strategies,
  check_strategy, unless,
}
use papi.Routes.Unique.{
  names, distinct_ids, added-distinct, added-distinct_ids, kept-distinct, kept-distinct_ids,
  updated-distinct_ids, same_names, rename_rows-distinct,
}
use papi.Routes.Keys.{aliases, allows_known, added-known, renamed-known, deleted-known}

-- Aliases differ without regard to case, ids differ, and keys only allow aliases.
abbrev pub IsSoundOf : List AliasRow → List KeyRow → Type 0
IsSoundOf rows keys =
    (distinct (names rows) ≡ true)
    × (distinct_ids rows ≡ true)
    × (all (allows_known (aliases rows)) keys ≡ true)

abbrev pub IsSound : State → Type 0
IsSound s = IsSoundOf s.tables.aliases s.tables.keys

-- A draft leaves the tables.
with_draft-tables : (host : Host) (s t : State) → with_draft host s ≡ ok t → t.tables ≡ s.tables
unfolding with_draft
with_draft-tables host s t h =
    let (snapshot, e, h1) = >>=-eq-ok (compile_declarative_snapshot host.engine s.tables) _ h in
    ground (arith, h1)

drafted-IsSound : (host : Host) (s t : State) → with_draft host s ≡ ok t → IsSound s → IsSound t
drafted-IsSound host s t h sound = rw (with_draft-tables host s t h) sound

available-unclashing :
    (rows : List AliasRow) (alias : String)
    → assert_alias_available rows alias ≡ ok tt
    → any (λ r. same (folded r.alias) (folded alias)) rows ≡ false
unfolding assert_alias_available
available-unclashing rows alias h = ground (arith, h)

import_selection-IsSound :
    (host : Host) (id : String) (input : Selection) (s t : State)
    → any (λ r. str_eq r.id id) s.tables.aliases ≡ false
    → import_selection host id input s ≡ ok t
    → IsSound s
    → IsSound t
unfolding import_selection selected_row
import_selection-IsSound host id input s t new h (d, i, k) =
    let (valid, h1) = >>-eq-ok (validate_public_alias input.alias) _ h in
    let (free, h2) = >>-eq-ok (assert_alias_available s.tables.aliases input.alias) _ h1 in
    let (provider, e, h3) =
      or_throw-eq-ok (find (λ p. str_eq p.id input.provider_id && p.enabled) s.providers) _ _ h2 in
    let (offered, h4) =
      guard-eq-ok (is_offered s.tables input.provider_id input.upstream_model) _ _ h3 in
    let (stored, h5) = >>-eq-ok (check_strategy input.routing_strategy) _ h4 in
    let row = selected_row id input in
    drafted-IsSound host _ t h5 (
      added-distinct s.tables.aliases row d (available-unclashing _ _ free),
      added-distinct_ids s.tables.aliases row i new,
      added-known s.tables.aliases row s.tables.keys k,
    )

unless-eq-ok :
    (test : Bool) (check : Result (Unit {0}))
    → unless test check ≡ ok tt
    → (test ≡ true) ⊎ (check ≡ ok tt)
unfolding unless
unless-eq-ok true check h = inl refl
unless-eq-ok false check h = inr h

rename_ids :
    (id next : String) (rows : List AliasRow)
    → distinct_ids rows ≡ true
    → distinct_ids (rename_rows id next rows) ≡ true
unfolding rename_rows
rename_ids id next rows i =
    updated-distinct_ids (λ r. str_eq r.id id) (λ r. record r { alias = next }) rows (λ r. refl) i

same_aliases :
    (p : AliasRow → Bool) (strategy : String) (rows : List AliasRow)
    → aliases (update_where p (λ r. record r { routing_strategy = strategy }) rows) ≡ aliases rows
same_aliases p strategy [] = refl
same_aliases p strategy (r ∷ rows) = ground (arith, same_aliases p strategy rows)

rename_model_alias-IsSound :
    (host : Host) (id next : String) (s t : State)
    → rename_model_alias host id next s ≡ ok t
    → IsSound s
    → IsSound t
unfolding rename_model_alias
rename_model_alias-IsSound host id next s t h (d, i, k) =
    let rows = s.tables.aliases in
    let (valid, h1) = >>-eq-ok (validate_public_alias next) _ h in
    let (row, found, h2) = or_throw-eq-ok (find (λ r. str_eq r.id id) rows) _ _ h1 in
    let (free, h3) =
      >>-eq-ok (unless (same (folded row.alias) (folded next)) (assert_alias_available rows next)) _
        h2 in
    drafted-IsSound host _ t h3 (
      rename_rows-distinct id next rows row d i found (elim (unless-eq-ok _ _ free) [
        | inl e ↦ inl e
        | inr e ↦ inr (available-unclashing rows next e)
      ]),
      rename_ids id next rows i,
      renamed-known id next rows row s.tables.keys i found k,
    )

delete_model_route-IsSound :
    (host : Host) (id : String) (s t : State)
    → delete_model_route host id s ≡ ok t
    → IsSound s
    → IsSound t
unfolding delete_model_route drop_alias
delete_model_route-IsSound host id s t h (d, i, k) =
    let rows = s.tables.aliases in
    let (row, found, h1) = or_throw-eq-ok (find (λ r. str_eq r.id id) rows) _ _ h in
    drafted-IsSound host _ t h1 (
      kept-distinct (λ r. not (str_eq r.id id)) rows d,
      kept-distinct_ids (λ r. not (str_eq r.id id)) rows i,
      deleted-known id rows row s.tables.keys i found k,
    )

update_provider_model_strategy-IsSound :
    (host : Host) (id strategy : String) (s t : State)
    → update_provider_model_strategy host id strategy s ≡ ok t
    → IsSound s
    → IsSound t
unfolding update_provider_model_strategy
update_provider_model_strategy-IsSound host id strategy s t h (d, i, k) =
    let rows = s.tables.aliases in
    let (valid, h1) = guard-eq-ok (includes valid_strategies strategy) _ _ h in
    let (there, h2) = guard-eq-ok (any (is_provider_model id) rows) _ _ h1 in
    let (stored, h3) = >>-eq-ok (check_strategy strategy) _ h2 in
    drafted-IsSound host _ t h3 (
      rw
          (same_names (is_provider_model id) (λ r. record r { routing_strategy = strategy }) rows
            (λ r. refl))
          d,
      updated-distinct_ids (is_provider_model id) (λ r. record r { routing_strategy = strategy })
          rows (λ r. refl) i,
      rw (same_aliases (is_provider_model id) strategy rows) k,
    )

-- One change of the aliases that succeeds; a new row has a new id.
pub data Change (host : Host) (s : State) : State → Type 0 where
  imported :
      (id : String) (input : Selection) (t : State)
      → any (λ r. str_eq r.id id) s.tables.aliases ≡ false
      → import_selection host id input s ≡ ok t
      → Change host s t
  renamed :
      (id next : String) (t : State) → rename_model_alias host id next s ≡ ok t → Change host s t
  deleted : (id : String) (t : State) → delete_model_route host id s ≡ ok t → Change host s t
  rerouted :
      (id strategy : String) (t : State)
      → update_provider_model_strategy host id strategy s ≡ ok t
      → Change host s t

pub data Reach (host : Host) (s : State) : State → Type 0 where
  here : Reach host s s
  after : {t u : State} → Reach host s t → Change host t u → Reach host s u

Change-IsSound : (host : Host) (s : State) {t : State} → Change host s t → IsSound s → IsSound t
Change-IsSound host s (imported id input t new h) = import_selection-IsSound host id input s t new h
Change-IsSound host s (renamed id next t h) = rename_model_alias-IsSound host id next s t h
Change-IsSound host s (deleted id t h) = delete_model_route-IsSound host id s t h
Change-IsSound host s (rerouted id strategy t h) =
    update_provider_model_strategy-IsSound host id strategy s t h

-- Whatever aliases are imported, renamed, deleted and rerouted, in whatever order: when the aliases
-- differ without regard to case, the rows' ids differ and the keys only allow aliases, this still
-- holds afterwards.
pub Reach-IsSound : (host : Host) (s t : State) → Reach host s t → IsSound s → IsSound t
Reach-IsSound host s t here sound = sound
Reach-IsSound host s t (after {t = u} r c) sound =
    Change-IsSound host u c (Reach-IsSound host s u r sound)
