-- ===== src/Common/Distinct.antt =====
-- Lists of texts without repetition.
use mathlib.Core.Path.{◌≡◌, refl}
use mathlib.Core.Bool.{Bool, true, false, not, ◌&&◌, ◌||◌}
use mathlib.Core.List.{List, [], ◌∷◌, ◌++◌}
use native.Mathlib.Omega.{arith}
use papi.Common.Text.{Text, same, same_iff, member}

-- No text comes twice.
abbrev pub distinct : List Text → Bool
distinct [] = true
distinct (k ∷ ks) = not (member k ks) && distinct ks

pub member-append :
    (s : Text) (ks : List Text) (k : Text) → member s (ks ++ k ∷ []) ≡ (member s ks || same k s)
unfolding member
member-append s [] k = ground arith
member-append s (j ∷ ks) k = ground (arith, member-append s ks k)

pub distinct-append :
    (ks : List Text) (k : Text)
    → distinct ks ≡ true
    → member k ks ≡ false
    → distinct (ks ++ k ∷ []) ≡ true
unfolding member
distinct-append [] k h n = refl
distinct-append (j ∷ ks) k h n =
    ground (arith, distinct-append ks k, member-append j ks k, same_iff j k, same_iff k j)
