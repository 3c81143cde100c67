-- ===== src/Common/Cut.antt =====
-- Texts cut at a character (`indexOf`, `lastIndexOf` and `slice`), and numbers printed in a template.
use Prim.Native.Nat.{ℕ, zero, suc, ◌+◌, ◌/◌, ◌%◌, ◌<◌}
use mathlib.Core.Path.{◌≡◌, refl}
use mathlib.Core.Bool.{Bool, true, false, ◌||◌}
use mathlib.Core.List.{List, [], ◌∷◌, ◌++◌}
use mathlib.Core.Option.{Option, none, some}
use native.Mathlib.Omega.{arith}
use papi.Common.Tests.{if◌then◌else◌, ltb, ◌==◌}
use papi.Common.Lists.{length, all}
use papi.Common.Text.{Text, has, split, prepend, is_digit, decimal, decimal_from}

-- What stands before and after the character, and `none` where `indexOf` gives -1.
abbrev pub Cut : Type 0
Cut = Option (Text × Text)

abbrev pub before_too : ℕ → Cut → Cut
before_too x none = none
before_too x (some (s, t)) = some (x ∷ s, t)

-- `s.indexOf(c)` and the slices beside it.
unfoldable pub cut_first : ℕ → Text → Cut
cut_first c [] = none
cut_first c (x ∷ s) = let rest = cut_first c s in if x == c then some ([], s) else before_too x rest

abbrev pub last_or : ℕ → ℕ → Text → Cut → Cut
last_or c x s (some (t, u)) = some (x ∷ t, u)
last_or c x s none = if x == c then some ([], s) else none

-- `s.lastIndexOf(c)` and the slices beside it.
unfoldable pub cut_last : ℕ → Text → Cut
cut_last c [] = none
cut_last c (x ∷ s) = last_or c x s (cut_last c s)

-- `(s.match(/c/g) ?? []).length`
unfoldable pub count : ℕ → Text → ℕ
count c [] = 0
count c (x ∷ s) = let rest = count c s in if x == c then suc rest else rest

-- `s.split(/c/)` for a class of characters.
unfoldable pub split_by : (ℕ → Bool) → Text → List Text
split_by p [] = [] ∷ []
split_by p (x ∷ s) = let rest = split_by p s in if p x then [] ∷ rest else prepend x rest

unfoldable pub ends_with : ℕ → Text → Bool
ends_with c [] = false
ends_with c (x ∷ []) = x == c
ends_with c (x ∷ y ∷ s) = ends_with c (y ∷ s)

-- The decimal digits of `n` before `out`. A number has fewer digits than its successor, which is
-- the fuel.
emit : ℕ → ℕ → Text → Text
emit zero n out = out
emit (suc fuel) n out =
    let rest = emit fuel (n / 10) ((b'0' + n % 10) ∷ out) in
    if ltb n 10 then (b'0' + n) ∷ out else rest

-- `${n}`
unfoldable pub print : ℕ → Text
unfolding emit
print n = emit (suc n) n []

decimal_from-emit :
    (fuel n : ℕ) (out : Text) → n < fuel → decimal_from 0 (emit fuel n out) ≡ decimal_from n out
unfolding emit decimal_from
decimal_from-emit zero n out h = ground arith
decimal_from-emit (suc fuel) n out h =
    grind (arith, decimal_from-emit fuel (n / 10) ((b'0' + n % 10) ∷ out))

pub decimal-print : (n : ℕ) → decimal (print n) ≡ n
unfolding print decimal decimal_from
decimal-print n = decimal_from-emit (suc n) n [] (omega arith)

emit-digits :
    (fuel n : ℕ) (out : Text)
    → n < fuel
    → all is_digit out ≡ true
    → all is_digit (emit fuel n out) ≡ true
unfolding emit
emit-digits zero n out h k = ground arith
emit-digits (suc fuel) n out h k = grind (arith, emit-digits fuel (n / 10) ((b'0' + n % 10) ∷ out))

pub print-digits : (n : ℕ) → all is_digit (print n) ≡ true
unfolding print
print-digits n = emit-digits (suc n) n [] (omega arith) refl

length-emit : (fuel n : ℕ) (out : Text) → n < fuel → 0 < length (emit fuel n out)
unfolding emit
length-emit zero n out h = ground arith
length-emit (suc fuel) n out h = grind (arith, length-emit fuel (n / 10) ((b'0' + n % 10) ∷ out))

pub length-print : (n : ℕ) → 0 < length (print n)
unfolding print
length-print n = length-emit (suc n) n [] (omega arith)

-- A text without the character is cut nowhere, and one before the character ends at it.
pub cut_last-none : (c : ℕ) (s : Text) → has c s ≡ false → cut_last c s ≡ none
unfolding cut_last has
cut_last-none c [] h = refl
cut_last-none c (x ∷ s) h = ground (arith, cut_last-none c s)

pub cut_last-append : (c : ℕ) (s t : Text) → has c t ≡ false → cut_last c (s ++ c ∷ t) ≡ some (s, t)
unfolding cut_last
cut_last-append c [] t h = ground (arith, cut_last-none c t)
cut_last-append c (x ∷ s) t h = rw (cut_last-append c s t h) refl

pub cut_first-none : (c : ℕ) (s : Text) → has c s ≡ false → cut_first c s ≡ none
unfolding cut_first has
cut_first-none c [] h = refl
cut_first-none c (x ∷ s) h = ground (arith, cut_first-none c s)

pub cut_first-append :
    (c : ℕ) (s t : Text) → has c s ≡ false → cut_first c (s ++ c ∷ t) ≡ some (s, t)
unfolding cut_first has
cut_first-append c [] t h = ground arith
cut_first-append c (x ∷ s) t h = ground (arith, cut_first-append c s t)

pub count-zero : (c : ℕ) (s : Text) → has c s ≡ false → count c s ≡ 0
unfolding count has
count-zero c [] h = refl
count-zero c (x ∷ s) h = ground (arith, count-zero c s)

pub count-append : (c : ℕ) (s t : Text) → has c s ≡ false → count c (s ++ c ∷ t) ≡ suc (count c t)
unfolding count has
count-append c [] t h = ground arith
count-append c (x ∷ s) t h = ground (arith, count-append c s t)

pub split-whole : (c : ℕ) (s : Text) → has c s ≡ false → split c s ≡ s ∷ []
unfolding split has
split-whole c [] h = refl
split-whole c (x ∷ s) h = ground (arith, split-whole c s)

pub split-append : (c : ℕ) (s t : Text) → has c s ≡ false → split c (s ++ c ∷ t) ≡ s ∷ split c t
unfolding split has
split-append c [] t h = ground arith
split-append c (x ∷ s) t h = ground (arith, split-append c s t)

pub has-append : (c : ℕ) (s t : Text) → has c (s ++ t) ≡ (has c s || has c t)
unfolding has
has-append c [] t = refl
has-append c (x ∷ s) t = ground (arith, has-append c s t)

-- A character that is no digit is not in a text of digits.
pub digits-without :
    (c : ℕ) (s : Text) → is_digit c ≡ false → all is_digit s ≡ true → has c s ≡ false
unfolding has
digits-without c [] h k = refl
digits-without c (x ∷ s) h k = grind (arith, digits-without c s)

first_step :
    (c x : ℕ) (s a b : Text) (o : Cut)
    → ((t u : Text) → o ≡ some (t, u) → s ≡ t ++ c ∷ u)
    → (if x == c then some ([], s) else before_too x o) ≡ some (a, b)
    → x ∷ s ≡ a ++ c ∷ b
first_step c x s a b none rest e = ground arith
first_step c x s a b (some (t, u)) rest e = ground (arith, rest t u refl)

-- What is cut joins to the text, and the character is not behind its last place.
pub cut_first-joins : (c : ℕ) (s a b : Text) → cut_first c s ≡ some (a, b) → s ≡ a ++ c ∷ b
unfolding cut_first
cut_first-joins c [] a b e = absurd (ground arith)
cut_first-joins c (x ∷ s) a b e =
    first_step c x s a b (cut_first c s) (λ t u. cut_first-joins c s t u) e

none_step :
    (c x : ℕ) (s : Text) (o : Cut)
    → (o ≡ none → has c s ≡ false)
    → last_or c x s o ≡ none
    → (x == c || has c s) ≡ false
none_step c x s none rest e = ground (arith, rest refl)
none_step c x s (some (t, u)) rest e = absurd (ground arith)

pub cut_last-none-has : (c : ℕ) (s : Text) → cut_last c s ≡ none → has c s ≡ false
unfolding cut_last has
cut_last-none-has c [] e = refl
cut_last-none-has c (x ∷ s) e = none_step c x s (cut_last c s) (cut_last-none-has c s) e

last_step :
    (c x : ℕ) (s a b : Text) (o : Cut)
    → (o ≡ none → has c s ≡ false)
    → ((t u : Text) → o ≡ some (t, u) → (s ≡ t ++ c ∷ u) × (has c u ≡ false))
    → last_or c x s o ≡ some (a, b)
    → (x ∷ s ≡ a ++ c ∷ b) × (has c b ≡ false)
last_step c x s a b none lacks rest e = ground (arith, lacks refl)
last_step c x s a b (some (t, u)) lacks rest e = ground (arith, rest t u refl)

pub cut_last-joins :
    (c : ℕ) (s a b : Text) → cut_last c s ≡ some (a, b) → (s ≡ a ++ c ∷ b) × (has c b ≡ false)
unfolding cut_last
cut_last-joins c [] a b e = absurd (ground arith)
cut_last-joins c (x ∷ s) a b e =
    last_step c x s a b (cut_last c s) (cut_last-none-has c s) (λ t u. cut_last-joins c s t u) e
