-- ===== src/Common/Stringify.antt =====
-- `JSON.stringify(value)`, and the bytes of its text in UTF-8 (`Buffer.byteLength`), with the escapes
-- that `JSON.stringify` writes.
use Prim.Native.Nat.{ℕ, ◌+◌, ◌-◌, ◌/◌, ◌%◌}
use mathlib.Core.Bool.{Bool, true, false, not, ◌&&◌, ◌||◌}
use mathlib.Core.List.{[], ◌∷◌, ◌++◌}
use papi.Common.Tests.{if◌then◌else◌, ltb, leb, ◌==◌}
use papi.Common.Lists.{length}
use papi.Common.Text.{Text, codes}
use papi.Common.Cut.{print}
use papi.Common.Json.{Json, null, bool, num, str, arr, obj, Items, nil, cons, Fields, end, field}

abbrev is_high : ℕ → Bool
is_high c = leb 0xd800 c && leb c 0xdbff

abbrev is_low : ℕ → Bool
is_low c = leb 0xdc00 c && leb c 0xdfff

starts_low : Text → Bool
starts_low [] = false
starts_low (c ∷ s) = is_low c

-- The bytes of one code unit; a pair of surrogates has four, and a lone one is escaped.
unit_bytes : Bool → ℕ → Bool → ℕ
unit_bytes after_high c before_low =
    if c == 34 || c == 92 || leb 8 c && leb c 10 || c == 12 || c == 13
    then 2
    else if ltb c 0x20
    then 6
    else if ltb c 0x80
    then 1
    else if ltb c 0x800
    then 2
    else if is_high c
    then (if before_low then 2 else 6)
    else if is_low c
    then (if after_high then 2 else 6)
    else 3

text_bytes : Bool → Text → ℕ
unfolding starts_low unit_bytes
text_bytes after_high [] = 0
text_bytes after_high (c ∷ s) = unit_bytes after_high c (starts_low s) + text_bytes (is_high c) s

-- A text with its quotes.
unfoldable pub quoted_bytes : Text → ℕ
unfolding text_bytes
quoted_bytes s = 2 + text_bytes false s

is_nil : Items → Bool
is_nil nil = true
is_nil (cons x xs) = false

is_end : Fields → Bool
is_end end = true
is_end (field k v fs) = false

unfoldable mutual
  unfolding quoted_bytes is_nil is_end

  pub json_bytes : Json → ℕ
  json_bytes null = 4
  json_bytes (bool b) = if b then 4 else 5
  json_bytes (num n) = length (print n)
  json_bytes (str s) = quoted_bytes s
  json_bytes (arr xs) = 2 + items_bytes xs
  json_bytes (obj fs) = 2 + fields_bytes fs

  -- A comma stands after each item but the last.
  items_bytes : Items → ℕ
  items_bytes nil = 0
  items_bytes (cons x xs) = json_bytes x + (if is_nil xs then 0 else 1) + items_bytes xs

  fields_bytes : Fields → ℕ
  fields_bytes end = 0
  fields_bytes (field k v fs) =
      quoted_bytes k + 1 + json_bytes v + (if is_end fs then 0 else 1) + fields_bytes fs

-- `JSON.stringify(value)`.
abbrev hex_digit : ℕ → ℕ
hex_digit n = if ltb n 10 then b'0' + n else b'a' + (n - 10)

escaped_unit : ℕ → Text
escaped_unit c =
    92
    ∷ b'u'
    ∷ hex_digit (c / 4096 % 16)
    ∷ hex_digit (c / 256 % 16)
    ∷ hex_digit (c / 16 % 16)
    ∷ hex_digit (c % 16)
    ∷ []

unit_text : Bool → ℕ → Bool → Text
unfolding escaped_unit
unit_text after_high c before_low =
    if c == 34 || c == 92
    then 92 ∷ c ∷ []
    else if c == 8
    then codes "\\b"
    else if c == 9
    then codes "\\t"
    else if c == 10
    then codes "\\n"
    else if c == 12
    then codes "\\f"
    else if c == 13
    then codes "\\r"
    else if ltb c 0x20 || is_high c && not before_low || is_low c && not after_high
    then escaped_unit c
    else c ∷ []

units_text : Bool → Text → Text
unfolding starts_low unit_text
units_text after_high [] = []
units_text after_high (c ∷ s) = unit_text after_high c (starts_low s) ++ units_text (is_high c) s

unfoldable pub quoted : Text → Text
unfolding units_text
quoted s = 34 ∷ (units_text false s ++ 34 ∷ [])

unfoldable mutual
  unfolding quoted is_nil is_end

  pub stringify : Json → Text
  stringify null = codes "null"
  stringify (bool b) = if b then codes "true" else codes "false"
  stringify (num n) = print n
  stringify (str s) = quoted s
  stringify (arr xs) = b'[' ∷ (items_text xs ++ codes "]")
  stringify (obj fs) = b'{' ∷ (fields_text fs ++ codes "}")

  items_text : Items → Text
  items_text nil = []
  items_text (cons x xs) = stringify x ++ (if is_nil xs then [] else codes ",") ++ items_text xs

  fields_text : Fields → Text
  fields_text end = []
  fields_text (field k v fs) =
      quoted k
      ++ codes ":"
      ++ stringify v
      ++ (if is_end fs then [] else codes ",")
      ++ fields_text fs
