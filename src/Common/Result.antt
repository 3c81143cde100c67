-- ===== src/Common/Result.antt =====
-- What a handler throws, and a computation that may throw. The messages are for people and are
-- left out; `ApiError` keeps its status and its code.
use Prim.Native.Nat.{ℕ}
use Prim.Native.String.{String}
use mathlib.Core.Path.{◌≡◌, refl}
use mathlib.Core.Bool.{Bool, true, false}
use mathlib.Core.Option.{Option, none, some}

pub data Thrown : Type 0 where
  api : (status : ℕ) → (code : String) → Thrown
  plain : (about : String) → Thrown
  zod : Thrown

-- A value, or what was thrown instead.
pub data Result {ℓ} (A : Type ℓ) : Type ℓ where
  ok : (value : A) → Result A
  err : (thrown : Thrown) → Result A

module _ {ℓ κ} {A : Type ℓ} {B : Type κ} where
  -- What is thrown ends the chain.
  infixl 5 ◌>>=◌
  abbrev pub ◌>>=◌ : (first : Result A) → (rest : A → Result B) → Result B
  err thrown >>= rest = err thrown
  ok value >>= rest = rest value

  -- When a chain gives a value, its first part gave one, and the rest went on from there.
  pub >>=-eq-ok :
      (first : Result A) (rest : A → Result B) {last : B}
      → (first >>= rest) ≡ ok last
      → (value : A) × (first ≡ ok value) × (rest value ≡ ok last)
  >>=-eq-ok (err thrown) rest done = cc
  >>=-eq-ok (ok value) rest done = (value, refl, done)

module _ {ℓ} {A : Type ℓ} where
  infixl 5 ◌>>◌
  abbrev pub ◌>>◌ : (first : Result (Unit {0})) → (rest : Result A) → Result A
  err thrown >> rest = err thrown
  ok _ >> rest = rest

  -- `if (!row) throw …`
  abbrev pub or_throw : (row : Option A) → (thrown : Thrown) → Result A
  or_throw (some a) thrown = ok a
  or_throw none thrown = err thrown

-- `if (!test) throw …`
abbrev pub guard : (test : Bool) → (thrown : Thrown) → Result (Unit {0})
guard false thrown = err thrown
guard true thrown = ok tt

pub guard-eq-ok {ℓ} :
    {A : Type ℓ} (test : Bool) (thrown : Thrown) (rest : Result A) {last : A}
    → (guard test thrown >> rest) ≡ ok last
    → (test ≡ true) × (rest ≡ ok last)
guard-eq-ok false thrown rest done = cc
guard-eq-ok true thrown rest done = (refl, done)

pub or_throw-eq-ok {ℓ κ} :
    {A : Type ℓ} {B : Type κ} (row : Option A) (thrown : Thrown) (rest : A → Result B) {last : B}
    → (or_throw row thrown >>= rest) ≡ ok last
    → (value : A) × (row ≡ some value) × (rest value ≡ ok last)
or_throw-eq-ok none thrown rest done = cc
or_throw-eq-ok (some value) thrown rest done = (value, refl, done)

pub >>-eq-ok {ℓ} :
    {A : Type ℓ} (first : Result (Unit {0})) (rest : Result A) {last : A}
    → (first >> rest) ≡ ok last
    → (first ≡ ok tt) × (rest ≡ ok last)
>>-eq-ok (err thrown) rest done = cc
>>-eq-ok (ok _) rest done = (refl, done)
