-- ===== src/Common/Json.antt =====
-- JSON values. Numbers are the counts, percentages and times that the code reads: natural numbers,
-- so negative and fractional ones are left out. An object is the list of its properties in order.
use Prim.Native.Nat.{ℕ}
use mathlib.Core.Bool.{Bool, true, false}
use mathlib.Core.Option.{Option, none, some}
use papi.Common.Tests.{if◌then◌else◌, ltb}
use papi.Common.Lists.{all, length}
use papi.Common.Number.{Number, nan}
use papi.Common.Text.{Text, same, is_digit, decimal}

mutual
  pub data Json : Type 0 where
    null : Json
    bool : Bool → Json
    num : ℕ → Json
    str : Text → Json
    arr : Items → Json
    obj : Fields → Json

  pub data Items : Type 0 where
    nil : Items
    cons : Json → Items → Items

  pub data Fields : Type 0 where
    end : Fields
    field : Text → Json → Fields → Fields

-- `o[key]`, `none` for `undefined`.
unfoldable pub get : Text → Fields → Option Json
get k end = none
get k (field j v fs) = if same j k then some v else get k fs

-- `Number(o[key])`. A text that is not made of digits, an array and an object are no numbers.
unfoldable pub to_number : Option Json → Number
to_number none = nan
to_number (some null) = Number.num 0
to_number (some (bool b)) = if b then Number.num 1 else Number.num 0
to_number (some (num n)) = Number.num n
to_number (some (str s)) = if all is_digit s then Number.num (decimal s) else nan
to_number (some (arr xs)) = nan
to_number (some (obj fs)) = nan

-- `Boolean(value)`, where `none` is `undefined`.
unfoldable pub truthy : Option Json → Bool
truthy none = false
truthy (some null) = false
truthy (some (bool b)) = b
truthy (some (num n)) = ltb 0 n
truthy (some (str s)) = ltb 0 (length s)
truthy (some (arr xs)) = true
truthy (some (obj fs)) = true

-- `value?.[key]`
unfoldable pub member_of : Text → Option Json → Option Json
unfolding get
member_of key (some (obj fs)) = get key fs
member_of key _ = none
