-- ===== src/Common/Number.antt =====
-- JavaScript numbers as the code uses them for counts, limits and times: a natural number, or the
-- `NaN` that `Number(text)` gives for a text that is no number. Every comparison with `NaN` fails.
use papi.Common.Tests.{leb, ltb}
use Prim.Native.Nat.{ℕ}
use mathlib.Core.Bool.{Bool, true, false}

pub data Number : Type 0 where
  nan : Number
  num : ℕ → Number

infix 50 ◌<=◌ ◌>=◌
abbrev pub ◌<=◌ : Number → Number → Bool
num a <= num b = leb a b
_ <= _ = false

abbrev pub ◌>=◌ : Number → Number → Bool
num a >= num b = leb b a
_ >= _ = false

abbrev pub less : Number → Number → Bool
less (num a) (num b) = ltb a b
less _ _ = false

-- `Number.isFinite`, and `n || 0`.
abbrev pub is_finite : Number → Bool
is_finite (num a) = true
is_finite nan = false

abbrev pub or_zero : Number → ℕ
or_zero (num a) = a
or_zero nan = 0
