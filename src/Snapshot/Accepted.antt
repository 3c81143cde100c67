-- ===== src/Snapshot/Accepted.antt =====
-- What validateFallbackChains of control-plane/lib/snapshots.ts accepts, exactly.
use papi.Common.{
  ℕ, subst, ◌≡◌, refl, ◌∙◌, ◌≢◌, ◌⊎◌, inl, inr, String, List, [], ◌∷◌, none, some, true, ◌||◌,
  str_eq, str_eq_iff, includes, arith, Bool-cases, All, ◌↔◌, is_some,
}
use papi.Common.Dict.{Dict, lookup, insert, lookup-insert}
use papi.Common.Result.{ok, guard-eq-ok, >>-eq-ok}
use papi.Snapshot.Fallbacks.{
  Model, index_from, index, truthy, Walk, fine, cycle, out_of_fuel, walk_from, known, walk_result,
  check_models, validate_fallback_chains,
}
use papi.Snapshot.Chains.{Ends, walk_from-fine, walk_from-of_Ends}

abbrev pub aliases : List Model → List String
aliases [] = []
aliases (m ∷ models) = m.alias ∷ aliases models

lookup-index_from :
    (table : Dict Model) (models : List Model) (f : String)
    → is_some (lookup f (index_from table models))
      ≡ (is_some (lookup f table) || includes (aliases models) f)
unfolding index_from
lookup-index_from table [] f = ground arith
lookup-index_from table (m ∷ models) f =
    lookup-index_from (insert m.alias m table) models f
    ∙ ground (arith, lookup-insert m.alias f m table)

-- Every fallback of the list is an alias of a model.
abbrev pub Named : List Model → List String → Type 0
Named models = All (λ f. includes (aliases models) f ≡ true)

known_iff :
    (models : List Model) (fs : List String) → (known (index models) fs ≡ true) ↔ Named models fs
unfolding known index lookup
known_iff models [] = ((λ e. tt), (λ h. refl))
known_iff models (f ∷ fs) =
    (let e = lookup-index_from [] models f in
      let (to, from) = known_iff models fs in
      ((λ h. (ground arith, to (ground arith))), (λ (q, h). let r = from h in ground arith)))

-- What the check asks of a model among `models`: its fallbacks are aliases of models, and the chain
-- of first fallbacks from it ends. A model without an alias starts no chain.
abbrev pub Sound : List Model → Model → Type 0
Sound models m =
    Named models m.fallbacks × ((m.alias ≡ "") ⊎ ((n : ℕ) × Ends (index models) n m.alias))

walk_result-ok : (w : Walk) → walk_result w ≡ ok tt → w ≡ fine
walk_result-ok fine e = refl
walk_result-ok (cycle c) e = ground arith
walk_result-ok out_of_fuel e = ground arith

truthy-some : (a b : String) → truthy (some a) ≡ some b → (a ≢ "") × (a ≡ b)
truthy-some a b e = elim (Bool-cases (str_eq a "")) [
  | inl empty ↦ absurd (let q : none ≡ some b = rw empty at e in cc)
  | inr full ↦
      (let q : some a ≡ some b = rw full at e in ((λ h. ground (arith, str_eq_iff a "")), cc))
]

sound_walk :
    (models : List Model) (a : String)
    → (walk_from (index models) (truthy (some a)) ≡ fine)
      ↔ ((a ≡ "") ⊎ ((n : ℕ) × Ends (index models) n a))
sound_walk models a = (
  (λ e. elim (Bool-cases (str_eq a "")) [
    | inl empty ↦ inl (ground (arith, str_eq_iff a ""))
    | inr full ↦ inr (walk_from-fine (index models) (truthy (some a)) e a (rw full))
  ]),
  (λ s. elim s [
    | inl empty ↦
        walk_from-of_Ends (index models) (truthy (some a))
          (λ b e. let (full, same) = truthy-some a b e in absurd (full empty))
    | inr (n, ends) ↦ walk_from-of_Ends (index models) (truthy (some a)) (λ b e.
        let (full, same) = truthy-some a b e in (n, subst (Ends (index models) n) same ends))
  ]),
)

check_models_iff :
    (all models : List Model) → (check_models (index all) models ≡ ok tt) ↔ All (Sound all) models
unfolding check_models
check_models_iff all [] = ((λ e. tt), (λ h. refl))
check_models_iff all (m ∷ models) = (
  (λ e.
      let (k, rest) = guard-eq-ok (known (index all) m.fallbacks) _ _ e in
      let (walked, others) =
        >>-eq-ok (walk_result (walk_from (index all) (truthy (some m.alias)))) _ rest in
      (
        (
          (known_iff all m.fallbacks).0 k,
          (sound_walk all m.alias).0
              (walk_result-ok (walk_from (index all) (truthy (some m.alias))) walked),
        ),
        (check_models_iff all models).0 others,
      )),
  (λ ((named, ends), others).
      let k = (known_iff all m.fallbacks).1 named in
      let walked = (sound_walk all m.alias).1 ends in
      rw (k, walked) ((check_models_iff all models).1 others)),
)

-- The check passes exactly when, for every model of the list, each fallback is the alias of some
-- model of the list and the chain of first fallbacks from the model reaches a model without one
-- (for a model whose alias is empty, the chain may be anything).
pub validate_fallback_chains_iff :
    (models : List Model) → (validate_fallback_chains models ≡ ok tt) ↔ All (Sound models) models
unfolding validate_fallback_chains
validate_fallback_chains_iff models = check_models_iff models models
