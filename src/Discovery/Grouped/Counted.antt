-- ===== src/Discovery/Grouped/Counted.antt =====
-- What the groups of control-plane/lib/codex/operations.ts, `groupedDiscoveredModels`, count.
use papi.Common.{
  ℕ, suc, String, ◌++◌, ◌∙◌, All, false, ◌+◌, ◌≡◌, refl, List, [], ◌∷◌, map, Option, Bool, ◌&&◌,
  if◌then◌else◌, length, select, Bool-cases, inl, inr, arith, ap,
}
use papi.Common.Text.{Text, codes, has, same, same_iff}
use papi.Discovery.Grouped.{
  ListedModel, Group, group_key, new_group, with_account, with_metadata, add_row, add_rows,
  GroupedModel, finish, grouped_discovered_models,
}

-- The counts of the group with a key; none has no accounts.
abbrev pub account_count_of : Text → List Group → ℕ
account_count_of k [] = 0
account_count_of k (g ∷ groups) =
    if same g.key k then g.account_count else account_count_of k groups

abbrev pub available_count_of : Text → List Group → ℕ
available_count_of k [] = 0
available_count_of k (g ∷ groups) =
    if same g.key k then g.available_account_count else available_count_of k groups

abbrev pub groups_of : List GroupedModel → List Group
groups_of = map (λ m. m.group)

-- The rows of a key, and those of them that are available.
abbrev of_key : Text → ListedModel → Bool
of_key k r = same (group_key r) k

abbrev offered : Text → ListedModel → Bool
offered k r = same (group_key r) k && r.available

new_key :
    (read : Text → Option ℕ) (r : ListedModel) (g : Group)
    → (with_metadata read r (with_account r g)).key ≡ g.key
unfolding with_metadata with_account
new_key read r g = elim (Bool-cases r.available) [ inl b ↦ rw b refl | inr b ↦ rw b refl ]

new_count :
    (read : Text → Option ℕ) (r : ListedModel) (g : Group)
    → (with_metadata read r (with_account r g)).account_count ≡ suc g.account_count
unfolding with_metadata with_account
new_count read r g = elim (Bool-cases r.available) [ inl b ↦ rw b refl | inr b ↦ rw b refl ]

new_available :
    (read : Text → Option ℕ) (r : ListedModel) (g : Group)
    → (with_metadata read r (with_account r g)).available_account_count
      ≡ (if r.available then suc g.available_account_count else g.available_account_count)
unfolding with_metadata with_account
new_available read r g = elim (Bool-cases r.available) [ inl b ↦ rw b refl | inr b ↦ rw b refl ]

add_row-count :
    (read : Text → Option ℕ) (k : Text) (r : ListedModel) (groups : List Group)
    → account_count_of k (add_row read r groups)
      ≡ (if of_key k r then suc (account_count_of k groups) else account_count_of k groups)
unfolding add_row new_group
add_row-count read k r [] = rw (new_key read r (new_group r), new_count read r (new_group r)) refl
add_row-count read k r (g ∷ groups) = elim (Bool-cases (same g.key (group_key r))) [
  | inl b ↦
      let key_is : g.key ≡ group_key r = (same_iff g.key (group_key r)).0 b in
      rw (b, new_key read r g, new_count read r g, key_is) (ground arith)
  | inr b ↦ rw b (
      ground (
        arith,
        b,
        add_row-count read k r groups,
        same_iff g.key k,
        same_iff (group_key r) k,
        same_iff g.key (group_key r),
      ))
]

add_row-available :
    (read : Text → Option ℕ) (k : Text) (r : ListedModel) (groups : List Group)
    → available_count_of k (add_row read r groups)
      ≡ (if offered k r then suc (available_count_of k groups) else available_count_of k groups)
unfolding add_row new_group
add_row-available read k r [] =
    rw (new_key read r (new_group r), new_available read r (new_group r)) (ground arith)
add_row-available read k r (g ∷ groups) = elim (Bool-cases (same g.key (group_key r))) [
  | inl b ↦
      let key_is : g.key ≡ group_key r = (same_iff g.key (group_key r)).0 b in
      rw (b, new_key read r g, new_available read r g, key_is) (ground arith)
  | inr b ↦ rw b (
      ground (
        arith,
        b,
        add_row-available read k r groups,
        same_iff g.key k,
        same_iff (group_key r) k,
        same_iff g.key (group_key r),
      ))
]

add_rows-count :
    (read : Text → Option ℕ) (k : Text) (rows : List ListedModel) (groups : List Group)
    → account_count_of k (add_rows read rows groups)
      ≡ account_count_of k groups + length (select (of_key k) rows)
unfolding add_rows
add_rows-count read k [] groups = omega arith
add_rows-count read k (r ∷ rows) groups =
    ground
      (arith, add_rows-count read k rows (add_row read r groups), add_row-count read k r groups)

add_rows-available :
    (read : Text → Option ℕ) (k : Text) (rows : List ListedModel) (groups : List Group)
    → available_count_of k (add_rows read rows groups)
      ≡ available_count_of k groups + length (select (offered k) rows)
unfolding add_rows
add_rows-available read k [] groups = omega arith
add_rows-available read k (r ∷ rows) groups = ground (
  arith,
  add_rows-available read k rows (add_row read r groups),
  add_row-available read k r groups,
)

groups_of-finish :
    (date : Text → Option ℕ) (groups : List Group) → groups_of (map (finish date) groups) ≡ groups
unfolding finish
groups_of-finish date [] = refl
groups_of-finish date (g ∷ groups) = ap (λ gs. g ∷ gs) (groups_of-finish date groups)

count_of_key :
    (read date : Text → Option ℕ) (rows : List ListedModel) (k : Text)
    → (account_count_of k (groups_of (grouped_discovered_models read date rows))
        ≡ length (select (of_key k) rows))
      × (available_count_of k (groups_of (grouped_discovered_models read date rows))
          ≡ length (select (offered k) rows))
unfolding grouped_discovered_models
count_of_key read date rows k =
    rw (groups_of-finish date (add_rows read rows [])) (
      omega (arith, add_rows-count read k rows []),
      omega (arith, add_rows-available read k rows []),
    )

same-append :
    (a b s t : Text)
    → has b':' a ≡ false
    → has b':' b ≡ false
    → same (a ++ b':' ∷ s) (b ++ b':' ∷ t) ≡ (same a b && same s t)
unfolding same has
same-append [] [] s t h k = ground arith
same-append [] (y ∷ b) s t h k = ground (arith, k)
same-append (x ∷ a) [] s t h k = ground (arith, h)
same-append (x ∷ a) (y ∷ b) s t h k = ground (arith, h, k, same-append a b s t)

-- The rows of a provider and a model, and those of them that are available.
abbrev pub is_listed : String → Text → ListedModel → Bool
is_listed provider model r =
    same (codes r.provider_id) (codes provider) && same r.upstream_model model

abbrev pub is_listed_available : String → Text → ListedModel → Bool
is_listed_available provider model r =
    same (codes r.provider_id) (codes provider) && same r.upstream_model model && r.available

of_key-is_listed :
    (provider : String) (model : Text) (rows : List ListedModel)
    → has b':' (codes provider) ≡ false
    → All (λ r. has b':' (codes r.provider_id) ≡ false) rows
    → (length (select (of_key (codes provider ++ b':' ∷ model)) rows)
        ≡ length (select (is_listed provider model) rows))
      × (length (select (offered (codes provider ++ b':' ∷ model)) rows)
          ≡ length (select (is_listed_available provider model) rows))
unfolding group_key
of_key-is_listed provider model [] h k = (refl, refl)
of_key-is_listed provider model (r ∷ rows) h (plain, k) =
    let (rest, rest_available) = of_key-is_listed provider model rows h k in
    let test = same-append (codes r.provider_id) (codes provider) r.upstream_model model plain h in
    (ground (arith, rest, test), ground (arith, rest_available, test))

-- In what `groupedDiscoveredModels` gives, where no provider's id has a colon: the group with the key
-- `provider:model` counts as many accounts as there are rows with that provider's id and that
-- upstream model, and as many available ones as there are available rows with both.
pub grouped_discovered_models-count :
    (read date : Text → Option ℕ) (rows : List ListedModel) (provider : String) (model : Text)
    → has b':' (codes provider) ≡ false
    → All (λ r. has b':' (codes r.provider_id) ≡ false) rows
    → (account_count_of
          (codes provider ++ b':' ∷ model)
          (groups_of (grouped_discovered_models read date rows))
        ≡ length (select (is_listed provider model) rows))
      × (available_count_of
            (codes provider ++ b':' ∷ model)
            (groups_of (grouped_discovered_models read date rows))
          ≡ length (select (is_listed_available provider model) rows))
grouped_discovered_models-count read date rows provider model h k =
    let counts = count_of_key read date rows (codes provider ++ b':' ∷ model) in
    let by_name = of_key-is_listed provider model rows h k in
    (counts.0 ∙ by_name.0, counts.1 ∙ by_name.1)
