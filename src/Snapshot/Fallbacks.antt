-- ===== src/Snapshot/Fallbacks.antt =====
-- validateFallbackChains of control-plane/lib/snapshots.ts: every fallback names a model, and
-- following first fallbacks from a model ends.
use papi.Common.{
  ℕ, zero, suc, ◌+◌, String, List, [], ◌∷◌, Option, none, some, Bool, true, false, ◌&&◌,
  if◌then◌else◌, str_eq, includes, first, length, is_some,
}
use papi.Common.Dict.{Dict, lookup, insert}
use papi.Common.Result.{Result, ok, err, plain, ◌>>◌, guard}

-- A model as this check reads it.
pub record Model : Type 0 where
  pub alias : String
  pub fallbacks : List String

-- `new Map(models.map(model => [model.alias, model]))`
unfoldable pub index_from : Dict Model → List Model → Dict Model
index_from table [] = table
index_from table (m ∷ models) = index_from (insert m.alias m table) models

unfoldable pub index : List Model → Dict Model
index models = index_from [] models

-- `byAlias.get(current)?.fallbacks?.[0]`, where an empty text ends the loop as `undefined` does.
abbrev pub head_of : Option Model → Option String
head_of none = none
head_of (some m) = first m.fallbacks

abbrev pub truthy : Option String → Option String
truthy none = none
truthy (some s) = if str_eq s "" then none else some s

unfoldable pub following : Dict Model → String → Option String
following table current = truthy (head_of (lookup current table))

pub data Walk : Type 0 where
  fine : Walk
  cycle : String → Walk
  out_of_fuel : Walk

-- The `while` loop, with the visited aliases.
unfoldable pub walk : ℕ → Dict Model → List String → String → Walk
walk zero table path current = out_of_fuel
walk (suc fuel) table path current = elim (includes path current) [
  | true ↦ cycle current
  | false ↦ elim (following table current) [
    | none ↦ fine
    | some next ↦ walk fuel table (current ∷ path) next
  ]
]

-- Enough rounds: one for each alias of the table, and two more.
unfoldable pub walk_from : Dict Model → Option String → Walk
unfolding walk
walk_from table none = fine
walk_from table (some alias) = walk (length table + 2) table [] alias

unfoldable pub known : Dict Model → List String → Bool
known table [] = true
known table (f ∷ fallbacks) = is_some (lookup f table) && known table fallbacks

abbrev pub walk_result : Walk → Result (Unit {0})
walk_result fine = ok tt
walk_result (cycle current) = err (plain "model fallback cycle")
walk_result out_of_fuel = err (plain "the fuel ran out")

unfoldable pub check_models : Dict Model → List Model → Result (Unit {0})
unfolding known walk_from
check_models table [] = ok tt
check_models table (m ∷ models) = do
  guard (known table m.fallbacks) (plain "model fallback references unknown model")
  walk_result (walk_from table (truthy (some m.alias)))
  check_models table models

unfoldable pub validate_fallback_chains : List Model → Result (Unit {0})
unfolding check_models index
validate_fallback_chains models = check_models (index models) models
