-- ===== src/Ipacl/Guard.antt =====
-- What the syntax check of a list establishes, and when a request is refused.
use papi.Common.{
  ◌≡◌, refl, ◌↔◌, ap, List, [], ◌∷◌, ◌++◌, ◌<◌, length, length-append, any, any-some, some-any,
  Memᴰ, ◌⊎◌, sym, ◌∙◌, if◌then◌else◌, Option, none, some, Bool, true, false, All, arith, Bool-cases,
  inl, inr,
}
use papi.Common.Text.{Text, split, has, trim}
use papi.Common.Cut.{split-whole, split-append}
use papi.Common.Json.{Json, null, str, arr, Items, nil, cons}
use papi.Common.Result.{Result, ok, err, api, >>=-eq-ok}
use papi.Ipacl.Ranges.{agrees, ip_allowed-agrees}
use papi.Ipacl.{
  is_v4_text, v4_to_number, is_cidr, parse_items, parse_cidrs, first_hop, ip_allowed, assert_ipacl,
}

-- The list as JSON values.
abbrev pub texts : List Text → Items
texts [] = nil
texts (t ∷ ts) = cons (str t) (texts ts)

parse_items_sound :
    (items : Items) (out : List Text)
    → parse_items items ≡ ok out
    → (items ≡ texts out) × All (λ c. is_cidr c ≡ true) out
unfolding parse_items
parse_items_sound nil [] h = (refl, tt)
parse_items_sound nil (t ∷ ts) h = cc
parse_items_sound (cons (str item) rest) out h = elim (Bool-cases (is_cidr item)) [
  | inl valid ↦
      let (tail, parsed, whole) =
        >>=-eq-ok (parse_items rest) (λ o. ok (item ∷ o)) (rw (valid, parse_items) at h) in
      let (same, sound) = parse_items_sound rest tail parsed in
      let e : item ∷ tail ≡ out = cc in rw (← e) (ap (cons (str item)) same, (valid, sound))
  | inr bad ↦ ground arith
]
parse_items_sound (cons null rest) out h = cc
parse_items_sound (cons item rest) out h = cc

-- What the guard answers a licensed request with a header that is not empty, by its first hop.
hop_answer :
    (header : Text) (cidrs : List Text)
    → 0 < length header
    → assert_ipacl true (some header) cidrs ≡ (
        if ip_allowed (first_hop (split b',' header)) cidrs
        then ok tt
        else err (api 403 "ip_not_allowed"))
unfolding assert_ipacl ip_allowed
hop_answer header [] h = ground arith
hop_answer header (c ∷ cidrs) h = ground arith

first_hop-alone : (hop : Text) → has b',' hop ≡ false → first_hop (split b',' hop) ≡ trim hop
unfolding first_hop
first_hop-alone hop h = rw (split-whole b',' hop h) refl

first_hop-append :
    (hop more : Text)
    → has b',' hop ≡ false
    → first_hop (split b',' (hop ++ b',' ∷ more)) ≡ trim hop
unfolding first_hop
first_hop-append hop more h = rw (split-append b',' hop more h) refl

not_v4_empty : is_v4_text [] ≡ false
unfolding is_v4_text split
not_v4_empty = refl

has_header : (hop : Text) → is_v4_text (trim hop) ≡ true → 0 < length hop
unfolding trim
has_header [] h = absurd (ground (arith, h, not_v4_empty))
has_header (c ∷ s) h = omega arith

-- A list that is accepted holds only texts, each of which passes the syntax check, in the given
-- order; nothing else is accepted.
pub parse_cidrs_sound :
    (raw : Json) (out : List Text)
    → parse_cidrs raw ≡ ok out
    → (raw ≡ arr (texts out)) × All (λ c. is_cidr c ≡ true) out
unfolding parse_cidrs
parse_cidrs_sound (arr items) out h =
    let (same, sound) = parse_items_sound items out h in (ap arr same, sound)
parse_cidrs_sound null out h = cc
parse_cidrs_sound raw out h = cc

passes :
    (forwarded : Option Text) (cidrs : List Text)
    → (assert_ipacl false forwarded cidrs ≡ ok tt)
      × (assert_ipacl true none cidrs ≡ ok tt)
      × (assert_ipacl true (some []) cidrs ≡ ok tt)
unfolding assert_ipacl
passes none cidrs = (refl, refl, refl)
passes (some header) cidrs = (refl, refl, refl)

refused_iff :
    (b : Bool) (answer : Result (Unit {0}))
    → answer ≡ (if b then ok tt else err (api 403 "ip_not_allowed"))
    → ((answer ≡ ok tt) ⊎ (answer ≡ err (api 403 "ip_not_allowed")))
      × ((answer ≡ ok tt) ↔ (b ≡ true))
refused_iff true answer e = (inl e, ((λ h. refl), (λ h. e)))
refused_iff false answer e = (inr e, ((λ h. absurd (ground arith)), (λ h. absurd (ground arith))))

-- The list is empty, or has a network that agrees with the address on its leading bits.
abbrev pub IsListed : Text → List Text → Type 0
IsListed ip cidrs = (cidrs ≡ []) ⊎ ((c : Text) × Memᴰ c cidrs × (agrees (v4_to_number ip) c ≡ true))

-- The network test of a list that is not empty.
ip_allowed-any :
    (ip c : Text) (cidrs : List Text)
    → is_v4_text ip ≡ true
    → All (λ c. is_cidr c ≡ true) (c ∷ cidrs)
    → ip_allowed ip (c ∷ cidrs) ≡ any (agrees (v4_to_number ip)) (c ∷ cidrs)
ip_allowed-any ip c cidrs four h = ip_allowed-agrees ip (c ∷ cidrs) four h ∙ ground arith

ip_allowed-IsListed :
    (ip : Text) (cidrs : List Text)
    → is_v4_text ip ≡ true
    → All (λ c. is_cidr c ≡ true) cidrs
    → ip_allowed ip cidrs ≡ true
    → IsListed ip cidrs
ip_allowed-IsListed ip [] four h e = inl refl
ip_allowed-IsListed ip (c ∷ cidrs) four h e =
    let (n, there, same) =
      any-some (agrees (v4_to_number ip)) (c ∷ cidrs)
        (sym (ip_allowed-any ip c cidrs four h) ∙ e) in
    inr (n, there, same)

IsListed-ip_allowed :
    (ip : Text) (cidrs : List Text)
    → is_v4_text ip ≡ true
    → All (λ c. is_cidr c ≡ true) cidrs
    → IsListed ip cidrs
    → ip_allowed ip cidrs ≡ true
IsListed-ip_allowed ip [] four h e = ip_allowed-agrees ip [] four h
IsListed-ip_allowed ip (c ∷ cidrs) four h (inl e) = absurd (ground (arith, e))
IsListed-ip_allowed ip (c ∷ cidrs) four h (inr (n, there, e)) =
    ip_allowed-any ip c cidrs four h ∙ some-any (agrees (v4_to_number ip)) (c ∷ cidrs) n there e

first_answer :
    (ip : Text) (cidrs : List Text) (answer : Result (Unit {0}))
    → is_v4_text ip ≡ true
    → All (λ c. is_cidr c ≡ true) cidrs
    → answer ≡ (if ip_allowed ip cidrs then ok tt else err (api 403 "ip_not_allowed"))
    → ((answer ≡ ok tt) ⊎ (answer ≡ err (api 403 "ip_not_allowed")))
      × ((answer ≡ ok tt) ↔ IsListed ip cidrs)
first_answer ip cidrs answer four h e =
    let (verdict, allowed) = refused_iff (ip_allowed ip cidrs) answer e in
    (
      verdict,
      (
        (λ passes. ip_allowed-IsListed ip cidrs four h (allowed.0 passes)),
        (λ listed. allowed.1 (IsListed-ip_allowed ip cidrs four h listed)),
      ),
    )

-- With a list that the syntax check accepts, and a header whose first hop, trimmed, is an IPv4
-- address: the answer to a licensed request is a pass or the refusal 403; it is a pass exactly when
-- the list is empty or has a network that agrees with the address on the network's leading bits;
-- what follows the first hop makes no difference; and every request without a license, without the
-- header or with an empty one passes.
pub assert_ipacl-agrees :
    (raw : Json) (cidrs : List Text) (hop more : Text) (forwarded : Option Text)
    → parse_cidrs raw ≡ ok cidrs
    → has b',' hop ≡ false
    → is_v4_text (trim hop) ≡ true
    → (((assert_ipacl true (some hop) cidrs ≡ ok tt)
          ⊎ (assert_ipacl true (some hop) cidrs ≡ err (api 403 "ip_not_allowed")))
        × ((assert_ipacl true (some hop) cidrs ≡ ok tt) ↔ IsListed (trim hop) cidrs))
      × (assert_ipacl true (some (hop ++ b',' ∷ more)) cidrs ≡ assert_ipacl true (some hop) cidrs)
      × ((assert_ipacl false forwarded cidrs ≡ ok tt)
          × (assert_ipacl true none cidrs ≡ ok tt)
          × (assert_ipacl true (some []) cidrs ≡ ok tt))
assert_ipacl-agrees raw cidrs hop more forwarded parsed whole four =
    let valid = (parse_cidrs_sound raw cidrs parsed).1 in
    let alone = first_hop-alone hop whole in
    let answer : Text → Result (Unit {0}) =
      λ ip. if ip_allowed ip cidrs then ok tt else err (api 403 "ip_not_allowed") in
    let first = hop_answer hop cidrs (has_header hop four) ∙ ap answer alone in
    let longer : 0 < length (hop ++ b',' ∷ more) = rw length-append (omega arith) in
    (
      first_answer (trim hop) cidrs (assert_ipacl true (some hop) cidrs) four valid first,
      hop_answer (hop ++ b',' ∷ more) cidrs longer
          ∙ ap answer (first_hop-append hop more whole)
          ∙ sym first,
      passes forwarded cidrs,
    )
