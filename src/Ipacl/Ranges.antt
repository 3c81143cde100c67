-- ===== src/Ipacl/Ranges.antt =====
-- Which addresses a network contains: those that agree with it on its leading bits.
use papi.Common.{
  ℕ, zero, suc, ◌+◌, ◌-◌, ◌*◌, ◌/◌, ◌^◌, ◌≤◌, ◌<◌, ◌≡◌, refl, ◌↔◌, List, [], ◌∷◌, some, Bool, true,
  false, not, ◌&&◌, if◌then◌else◌, leb, ◌==◌, ==_iff, length, all, any, All, arith, Bool-cases,
  &&_split, inl, inr,
}
use native.Mathlib.Nat.{le-div_iff_mul-le, div-lt_iff_lt-mul, add-mul, one-le-pow, mul-le-mul_right}
use papi.Common.Text.{Text, has, split, decimal, member}
use papi.Ipacl.{
  is_cidr, cidr_parts, v4_to_number, range_of, range_parts, v4_range, in_range, ip_allowed,
  is_v4_text, sum_parts, is_octet, is_dotted, Range,
}

-- The leading `bits` bits of a 32-bit address.
abbrev pub prefix : ℕ → ℕ → ℕ
prefix bits value = value / 2 ^ (32 - bits)

div_block :
    (size base value : ℕ)
    → 0 < size
    → ((base / size * size ≤ value) ↔ (base / size ≤ value / size))
      × ((value < (base / size + 1) * size) ↔ (value / size < base / size + 1))
div_block size base value h = (
  ((le-div_iff_mul-le h).1, (le-div_iff_mul-le h).0),
  ((div-lt_iff_lt-mul h).1, (div-lt_iff_lt-mul h).0),
)

in_block :
    (size base value : ℕ)
    → 0 < size
    → (leb (base / size * size) value && leb value (base / size * size + size - 1))
      ≡ (value / size == base / size)
in_block size base value h =
    ground (arith, div_block size base value h, add-mul (base / size) 1 size)

size-pos : (bits : ℕ) → 0 < 2 ^ (32 - bits)
size-pos bits = one-le-pow (32 - bits) 2 (omega arith)

-- The part of a network's text before the slash, and the number behind it: 32 where there is none.
abbrev pub address_of : List Text → Text
address_of [] = []
address_of (ip ∷ rest) = ip

abbrev pub bits_of : List Text → ℕ
bits_of [] = 32
bits_of (ip ∷ []) = 32
bits_of (ip ∷ bits ∷ rest) = decimal bits

-- The address agrees with the network on the network's leading bits.
abbrev pub agrees : ℕ → Text → Bool
agrees value cidr =
    let parts = split b'/' cidr in
    not (has b':' cidr)
    && prefix (bits_of parts) value == prefix (bits_of parts) (v4_to_number (address_of parts))

in_range_of :
    (base bits value : ℕ)
    → in_range value (some (range_of base bits)) ≡ (prefix bits value == prefix bits base)
unfolding in_range
in_range_of base bits value = in_block (2 ^ (32 - bits)) base value (size-pos bits)

in_range_parts :
    (parts : List Text) (value : ℕ)
    → cidr_parts parts ≡ true
    → in_range value (range_parts parts)
      ≡ (prefix (bits_of parts) value == prefix (bits_of parts) (v4_to_number (address_of parts)))
unfolding cidr_parts range_parts
in_range_parts [] value h = ground arith
in_range_parts (ip ∷ []) value h = in_range_of (v4_to_number ip) 32 value
in_range_parts (ip ∷ bits ∷ []) value h = in_range_of (v4_to_number ip) (decimal bits) value
in_range_parts (ip ∷ bits ∷ more ∷ rest) value h = ground arith

in_range-agrees :
    (value : ℕ) (cidr : Text)
    → is_cidr cidr ≡ true
    → in_range value (v4_range cidr) ≡ agrees value cidr
unfolding is_cidr v4_range in_range
in_range-agrees value cidr h = elim (Bool-cases (has b':' cidr)) [
  | inl six ↦ rw six
  | inr four ↦ rw four (in_range_parts (split b'/' cidr) value (rw (four, is_cidr) at h))
]

any-agrees :
    (value : ℕ) (cidrs : List Text)
    → All (λ c. is_cidr c ≡ true) cidrs
    → any (λ c. in_range value (v4_range c)) cidrs ≡ any (agrees value) cidrs
any-agrees value [] h = refl
any-agrees value (c ∷ cidrs) (valid, h) =
    rw (in_range-agrees value c valid, any-agrees value cidrs h)

-- For a dotted address and a list whose entries have passed the syntax check, the address is
-- allowed exactly when the list is empty or some IPv4 network of it has the address's leading bits.
pub ip_allowed-agrees :
    (ip : Text) (cidrs : List Text)
    → is_v4_text ip ≡ true
    → All (λ c. is_cidr c ≡ true) cidrs
    → ip_allowed ip cidrs
      ≡ (if length cidrs == 0 then true else any (agrees (v4_to_number ip)) cidrs)
unfolding ip_allowed
ip_allowed-agrees ip [] four h = refl
ip_allowed-agrees ip (c ∷ cidrs) four h = ground (arith, any-agrees (v4_to_number ip) (c ∷ cidrs) h)

-- Any other text is compared whole: it is allowed exactly when it is listed.
pub ip_allowed-member :
    (ip : Text) (cidrs : List Text)
    → is_v4_text ip ≡ false
    → ip_allowed ip cidrs ≡ (if length cidrs == 0 then true else member ip cidrs)
unfolding ip_allowed
ip_allowed-member ip [] other = refl
ip_allowed-member ip (c ∷ cidrs) other = ground arith

-- What the check of an octet list gives: four octets below 256 make a number below 2^32.
sum_parts-lt :
    (parts : List Text)
    → length parts == 4 ≡ true
    → all is_octet parts ≡ true
    → sum_parts 0 parts < 2 ^ 32
unfolding sum_parts is_octet
sum_parts-lt [] n h = ground arith
sum_parts-lt (a ∷ []) n h = ground arith
sum_parts-lt (a ∷ b ∷ []) n h = ground arith
sum_parts-lt (a ∷ b ∷ c ∷ []) n h = ground arith
sum_parts-lt (a ∷ b ∷ c ∷ d ∷ []) n h = ground arith
sum_parts-lt (a ∷ b ∷ c ∷ d ∷ e ∷ rest) n h = ground arith

dotted-lt : (ip : Text) → is_dotted ip ≡ true → v4_to_number ip < 2 ^ 32
unfolding is_dotted v4_to_number
dotted-lt ip h = let (four, octets) = &&_split _ _ h in sum_parts-lt (split b'.' ip) four octets

-- A block of 2^(32 - bits) addresses that holds a 32-bit base ends below 2^32.
holds_to : (test : ℕ → Bool) (top : ℕ) → Bool
holds_to test zero = test 0
holds_to test (suc top) = holds_to test top && test (suc top)

holds_to-le : (test : ℕ → Bool) (top n : ℕ) → holds_to test top ≡ true → n ≤ top → test n ≡ true
unfolding holds_to
holds_to-le test zero zero all_hold le = all_hold
holds_to-le test zero (suc n) all_hold le = absurd (omega arith)
holds_to-le test (suc top) n all_hold le = ground (arith, holds_to-le test top n)

abbrev fills : ℕ → Bool
fills bits = 2 ^ 32 / 2 ^ (32 - bits) * 2 ^ (32 - bits) == 2 ^ 32

fills_table : holds_to fills 32 ≡ true
unfolding holds_to
fills_table = refl

last_block :
    (size count base : ℕ)
    → 0 < size
    → base < count * size
    → base / size * size + size ≤ count * size
last_block size count base pos h = omega (
  arith,
  mul-le-mul_right size ((div-lt_iff_lt-mul {k = size} {x = base} {y = count} pos).1 h),
  add-mul (base / size) 1 size,
)

range_of-lt : (base bits : ℕ) → bits ≤ 32 → base < 2 ^ 32 → (range_of base bits).hi < 2 ^ 32
range_of-lt base bits h k =
    let size = 2 ^ (32 - bits) in
    let full = (==_iff _ _).0 (holds_to-le fills 32 bits fills_table (omega arith)) in
    let pos = size-pos bits in omega (arith, last_block size (2 ^ 32 / size) base pos (omega arith))

range_parts-bounds :
    (parts : List Text)
    → cidr_parts parts ≡ true
    → (r : Range) × (range_parts parts ≡ some r) × (r.lo ≤ r.hi) × (r.hi < 2 ^ 32)
unfolding cidr_parts range_parts
range_parts-bounds [] h = ground arith
range_parts-bounds (ip ∷ []) h = (
  range_of (v4_to_number ip) 32,
  refl,
  omega (arith, size-pos 32),
  range_of-lt (v4_to_number ip) 32 (omega arith) (dotted-lt ip h),
)
range_parts-bounds (ip ∷ bits ∷ []) h = (
  range_of (v4_to_number ip) (decimal bits),
  refl,
  omega (arith, size-pos (decimal bits)),
  range_of-lt (v4_to_number ip) (decimal bits) (ground arith) (dotted-lt ip (ground arith)),
)
range_parts-bounds (ip ∷ bits ∷ more ∷ rest) h = ground arith

-- Every IPv4 network that passes the syntax check has a range of 32-bit addresses, not empty.
pub v4_range-bounds :
    (cidr : Text)
    → is_cidr cidr ≡ true
    → has b':' cidr ≡ false
    → (r : Range) × (v4_range cidr ≡ some r) × (r.lo ≤ r.hi) × (r.hi < 2 ^ 32)
unfolding v4_range is_cidr
v4_range-bounds cidr h four =
    rw four (range_parts-bounds (split b'/' cidr) (rw (four, is_cidr) at h))
