-- ===== src/Snapshot/Chains.antt =====
-- What validateFallbackChains of control-plane/lib/snapshots.ts accepts.
use papi.Common.{
  ℕ, zero, suc, ◌+◌, ◌≤◌, ◌<◌, ◌≡◌, refl, sym, ◌∙◌, ap, ◌≢◌, inl, inr, String, List, [], ◌∷◌,
  Option, none, some, true, false, if◌then◌else◌, str_eq, str_eq_iff, includes, length, arith,
  Bool-cases, Option-cases,
}
use papi.Common.Dict.{Dict, lookup}
use papi.Snapshot.Fallbacks.{Model, following, Walk, fine, cycle, out_of_fuel, walk, walk_from}

-- The number of the table's aliases that the path has not visited.
unfoldable pub unvisited : Dict Model → List String → ℕ
unvisited [] path = 0
unvisited ((k, m) ∷ table) path = (if includes path k then 0 else 1) + unvisited table path

unvisited-le : (table : Dict Model) (path : List String) → unvisited table path ≤ length table
unfolding unvisited
unvisited-le [] path = omega arith
unvisited-le ((k, m) ∷ table) path = ground (arith, unvisited-le table path)

unvisited_mono :
    (table : Dict Model) (path : List String) (c : String)
    → unvisited table (c ∷ path) ≤ unvisited table path
unfolding unvisited
unvisited_mono [] path c = omega arith
unvisited_mono ((k, m) ∷ table) path c = ground (arith, unvisited_mono table path c)

unvisited-lt :
    (table : Dict Model) (path : List String) (c : String) (m : Model)
    → lookup c table ≡ some m
    → includes path c ≡ false
    → unvisited table (c ∷ path) < unvisited table path
unfolding unvisited lookup
unvisited-lt [] path c m e h = ground arith
unvisited-lt ((k, n) ∷ table) path c m e h = ground (
  arith,
  str_eq_iff k c,
  str_eq_iff c k,
  unvisited-lt table path c m,
  unvisited_mono table path c,
)

following-known :
    (table : Dict Model) (c next : String)
    → following table c ≡ some next
    → (m : Model) × (lookup c table ≡ some m)
unfolding following
following-known table c next e = elim (Option-cases (lookup c table)) [
  | inl missing ↦ absurd (ground arith)
  | inr found ↦ found
]

-- The next round of the loop at an alias that is not on the path.
unfoldable next_round : ℕ → Dict Model → List String → String → Option String → Walk
next_round fuel table path current none = fine
next_round fuel table path current (some next) = walk fuel table (current ∷ path) next

walk-new :
    (fuel : ℕ) (table : Dict Model) (path : List String) (current : String)
    → includes path current ≡ false
    → walk (suc fuel) table path current
      ≡ next_round fuel table path current (following table current)
unfolding walk next_round
walk-new fuel table path current new = rw (new, walk) (go (following table current))
  where
    go :
        (o : Option String)
        → elim o [ none ↦ fine | some next ↦ walk fuel table (current ∷ path) next ]
          ≡ next_round fuel table path current o
    go none = refl
    go (some next) = refl

walk-seen :
    (fuel : ℕ) (table : Dict Model) (path : List String) (current : String)
    → includes path current ≡ true
    → walk (suc fuel) table path current ≡ cycle current
unfolding walk
walk-seen fuel table path current seen = rw (seen, walk)

-- The loop ends by itself: with two rounds more than unvisited aliases it never runs out of fuel.
pub walk-ends :
    (fuel : ℕ) (table : Dict Model) (path : List String) (current : String)
    → unvisited table path + 1 < fuel
    → walk fuel table path current ≢ out_of_fuel
unfolding next_round
walk-ends zero table path current h e = absurd (omega arith)
walk-ends (suc fuel) table path current h e = elim (Bool-cases (includes path current)) [
  | inl seen ↦ ground (arith, walk-seen fuel table path current seen)
  | inr new ↦
      go (following table current) refl (sym (walk-new fuel table path current new) ∙ e) new
        (λ next less e. walk-ends fuel table (current ∷ path) next less e)
]
  where
    go :
        (o : Option String)
        → following table current ≡ o
        → next_round fuel table path current o ≡ out_of_fuel
        → includes path current ≡ false
        → ((next : String)
            → unvisited table (current ∷ path) + 1 < fuel
            → walk fuel table (current ∷ path) next ≢ out_of_fuel)
        → ⊥
    go none f e new rest = ground arith
    go (some next) f e new rest =
        (let m = following-known table current next f in
          let lt = unvisited-lt table path current m.0 m.1 new in rest next (omega arith) e)

-- The chain of first fallbacks from an alias ends, after `n` steps.
pub data Ends (table : Dict Model) : ℕ → String → Type 0 where
  last : {a : String} → following table a ≡ none → Ends table 0 a
  hop : {n : ℕ} {a b : String} → following table a ≡ some b → Ends table n b → Ends table (suc n) a

Ends-length : {table : Dict Model} {n m : ℕ} {a : String} → Ends table n a → Ends table m a → n ≡ m
Ends-length (last e) (last f) = refl
Ends-length (last e) (hop f k) = absurd (ground arith)
Ends-length (hop e h) (last f) = absurd (ground arith)
Ends-length (hop {b} e h) (hop {b = c} f k) =
    (let same : b ≡ c = ground arith in ap suc (Ends-length h (rw same k)))

walk-fine :
    (fuel : ℕ) (table : Dict Model) (path : List String) (current : String)
    → walk fuel table path current ≡ fine
    → (n : ℕ) × Ends table n current
unfolding walk next_round
walk-fine zero table path current e = absurd (ground arith)
walk-fine (suc fuel) table path current e = elim (Bool-cases (includes path current)) [
  | inl seen ↦ absurd (ground (arith, walk-seen fuel table path current seen))
  | inr new ↦
      go (following table current) refl (sym (walk-new fuel table path current new) ∙ e)
        (λ next e. walk-fine fuel table (current ∷ path) next e)
]
  where
    go :
        (o : Option String)
        → following table current ≡ o
        → next_round fuel table path current o ≡ fine
        → ((next : String)
            → walk fuel table (current ∷ path) next ≡ fine
            → (n : ℕ) × Ends table n next)
        → (n : ℕ) × Ends table n current
    go none f e rest = (0, last f)
    go (some next) f e rest = (let (n, h) = rest next e in (suc n, hop f h))

-- Every alias of the path is more than `n` steps from its end.
abbrev Behind : Dict Model → ℕ → List String → Type 0
Behind table n path = (p : String) → includes path p ≡ true → (m : ℕ) × (n < m) × Ends table m p

Behind-hop :
    (table : Dict Model) (n : ℕ) (path : List String) (a : String)
    → Ends table (suc n) a
    → Behind table (suc n) path
    → Behind table n (a ∷ path)
Behind-hop table n path a h b p seen = elim (Bool-cases (str_eq a p)) [
  | inl hit ↦
      (let same : a ≡ p = ground (arith, str_eq_iff a p) in (suc n, omega arith, rw (← same) h))
  | inr miss ↦ (let (m, more, k) = b p (ground arith) in (m, omega arith, k))
]

walk-of_Ends :
    (fuel : ℕ) (table : Dict Model) (path : List String) (current : String) {n : ℕ}
    → Ends table n current
    → Behind table n path
    → (c : String) → walk fuel table path current ≢ cycle c
unfolding walk next_round
walk-of_Ends zero table path current h b c e = ground arith
walk-of_Ends (suc fuel) table path current {n} h b c e = elim (Bool-cases (includes path current)) [
  | inl seen ↦
      (let (m, more, k) = b current seen in let same = Ends-length h k in absurd (omega arith))
  | inr new ↦
      go h b (sym (walk-new fuel table path current new) ∙ e)
        (λ next m k b. walk-of_Ends fuel table (current ∷ path) next k b c)
]
  where
    go :
        {m : ℕ}
        → Ends table m current
        → Behind table m path
        → next_round fuel table path current (following table current) ≡ cycle c
        → ((next : String) (m : ℕ)
            → Ends table m next
            → Behind table m (current ∷ path)
            → walk fuel table (current ∷ path) next ≢ cycle c)
        → ⊥
    go (last f) b e rest = ground arith
    go (hop {n = m} {b = next} f k) b e rest =
        rest next m k (Behind-hop table m path current (hop f k) b) (rw f at e)

pub walk_from-fine :
    (table : Dict Model) (o : Option String)
    → walk_from table o ≡ fine
    → (a : String) → o ≡ some a
    → (n : ℕ) × Ends table n a
unfolding walk_from
walk_from-fine table none e a h = absurd (ground arith)
walk_from-fine table (some b) e a h =
    (let same : b ≡ a = ground arith in rw (← same) (walk-fine (length table + 2) table [] b e))

walk_from-ends : (table : Dict Model) (o : Option String) → walk_from table o ≢ out_of_fuel
unfolding walk_from unvisited
walk_from-ends table none e = ground arith
walk_from-ends table (some a) e =
    walk-ends (length table + 2) table [] a (omega (arith, unvisited-le table [])) e

no_cycle :
    (table : Dict Model) (o : Option String)
    → ((a : String) → o ≡ some a → (n : ℕ) × Ends table n a)
    → (c : String) → walk_from table o ≢ cycle c
unfolding walk_from
no_cycle table none h c e = ground arith
no_cycle table (some a) h c e =
    (let (n, ends) = h a refl in
      walk-of_Ends (length table + 2) table [] a ends (λ p seen. ground arith) c e)

pub walk_from-of_Ends :
    (table : Dict Model) (o : Option String)
    → ((a : String) → o ≡ some a → (n : ℕ) × Ends table n a)
    → walk_from table o ≡ fine
walk_from-of_Ends table o h = go (walk_from table o) refl
  where
    go : (w : Walk) → walk_from table o ≡ w → walk_from table o ≡ fine
    go fine e = e
    go out_of_fuel e = absurd (walk_from-ends table o e)
    go (cycle c) e = absurd (no_cycle table o h c e)
