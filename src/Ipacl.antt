-- ===== src/Ipacl.antt =====
-- control-plane/lib/ipacl.ts: the allowlist of IPv4 networks. Addresses and networks are texts; a
-- text that has passed the syntax check only calls `Number` on digits.
pub mod Ranges
pub mod Guard
mod Tests
use papi.Common.{
  ℕ, ◌+◌, ◌-◌, ◌*◌, ◌/◌, ◌^◌, List, [], ◌∷◌, Option, none, some, Bool, true, false, not, ◌&&◌, ◌||◌,
  if◌then◌else◌, ltb, leb, ◌==◌, length, all, any,
}
use papi.Common.Text.{Text, codes, has, split, digits_between, decimal, member, trim, same}
use papi.Common.Json.{Json, null, bool, num, str, arr, obj, Items, nil, cons}
use papi.Common.Result.{Result, ok, err, api, Thrown, ◌>>=◌}

is_octet : Text → Bool
is_octet part = digits_between 1 3 part && leb (decimal part) 255

is_dotted : Text → Bool
unfolding is_octet
is_dotted ip = length (split b'.' ip) == 4 && all is_octet (split b'.' ip)

-- The cases are those of `value.split('/')`, which never is empty.
cidr_parts : List Text → Bool
unfolding is_dotted
cidr_parts [] = false
cidr_parts (ip ∷ []) = is_dotted ip
cidr_parts (ip ∷ bits ∷ []) =
    if not (digits_between 1 2 bits)
    then false
    else if ltb 32 (decimal bits)
    then false
    else is_dotted ip
cidr_parts (ip ∷ bits ∷ more ∷ rest) = false

unfoldable pub is_cidr : Text → Bool
unfolding cidr_parts
is_cidr value =
    if has b':' value
    then ltb 0 (length value) && leb (length value) 45
    else cidr_parts (split b'/' value)

parse_items : Items → Result (List Text)
unfolding is_cidr
parse_items nil = ok []
parse_items (cons (str item) rest) =
    if is_cidr item
    then (parse_items rest >>= λ out. ok (item ∷ out))
    else err (api 400 "invalid_cidrs")
parse_items (cons item rest) = err (api 400 "invalid_cidrs")

unfoldable pub parse_cidrs : Json → Result (List Text)
unfolding parse_items
parse_cidrs (arr items) = parse_items items
parse_cidrs raw = err (api 400 "invalid_cidrs")

-- `value = value * 256 + Number(part)` over the parts.
sum_parts : ℕ → List Text → ℕ
sum_parts value [] = value
sum_parts value (part ∷ parts) = sum_parts (value * 256 + decimal part) parts

unfoldable pub v4_to_number : Text → ℕ
unfolding sum_parts
v4_to_number ip = sum_parts 0 (split b'.' ip)

pub record Range : Type 0 where
  pub lo : ℕ
  pub hi : ℕ

abbrev pub range_of : ℕ → ℕ → Range
range_of base bits =
    let size = 2 ^ (32 - bits) in
    record { lo = base / size * size; hi = base / size * size + size - 1 }

range_parts : List Text → Option Range
range_parts [] = none
range_parts (ip ∷ []) = some (range_of (v4_to_number ip) 32)
range_parts (ip ∷ bits ∷ []) = some (range_of (v4_to_number ip) (decimal bits))
range_parts (ip ∷ bits ∷ more ∷ rest) = none

unfoldable pub v4_range : Text → Option Range
unfolding range_parts
v4_range cidr = if has b':' cidr then none else range_parts (split b'/' cidr)

-- `/^(\d{1,3}\.){3}\d{1,3}$/`
unfoldable pub is_v4_text : Text → Bool
is_v4_text ip = length (split b'.' ip) == 4 && all (digits_between 1 3) (split b'.' ip)

unfoldable pub in_range : ℕ → Option Range → Bool
in_range value none = false
in_range value (some range) = leb range.lo value && leb value range.hi

unfoldable pub ip_allowed : Text → List Text → Bool
ip_allowed ip [] = true
ip_allowed ip (cidr ∷ cidrs) =
    if not (is_v4_text ip)
    then member ip (cidr ∷ cidrs)
    else any (λ c. in_range (v4_to_number ip) (v4_range c)) (cidr ∷ cidrs)

-- The first hop of `X-Forwarded-For`.
unfoldable pub first_hop : List Text → Text
first_hop [] = []
first_hop (hop ∷ hops) = trim hop

-- `licensed` is `hasFeature('ipacl')`, `forwarded` the header, if there is one, `cidrs` the stored
-- list, empty where the setting is missing or has no array.
unfoldable pub assert_ipacl : Bool → Option Text → List Text → Result (Unit {0})
unfolding first_hop
assert_ipacl licensed none cidrs = ok tt
assert_ipacl licensed (some forwarded) cidrs =
    if not licensed
    then ok tt
    else if length forwarded == 0
    then ok tt
    else if length cidrs == 0
    then ok tt
    else if ip_allowed (first_hop (split b',' forwarded)) cidrs
    then ok tt
    else err (api 403 "ip_not_allowed")
