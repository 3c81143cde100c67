-- ===== src/Ipacl/Tests.antt =====
-- Runs of control-plane/lib/ipacl.ts on concrete addresses.
use papi.Common.{
  none, ◌⊎◌, ◌≡◌, ◌↔◌, refl, List, [], ◌∷◌, some, true, false, if◌then◌else◌, length, any, ◌==◌,
}
use papi.Common.Text.{Text, codes, split, has, digits_between, decimal, trim}
use papi.Common.Json.{arr}
use papi.Common.Result.{ok, err, api}
use papi.Ipacl.{is_cidr, is_v4_text, v4_to_number, ip_allowed, first_hop, assert_ipacl, parse_cidrs}
use papi.Ipacl.Ranges.{agrees, ip_allowed-agrees}
use papi.Ipacl.Guard.{texts, IsListed, assert_ipacl-agrees}

abbrev office : List Text
office = codes "10.0.0.0/8" ∷ codes "192.168.1.7" ∷ []

ip_allowed-agrees_example :
    ip_allowed (codes "10.1.2.3") office
    ≡ (if length office == 0 then true else any (agrees (v4_to_number (codes "10.1.2.3"))) office)
unfolding is_v4_text is_cidr has split digits_between decimal
ip_allowed-agrees_example = ip_allowed-agrees (codes "10.1.2.3") office refl (refl, (refl, tt))

office_json : parse_cidrs (arr (texts office)) ≡ ok office
unfolding parse_cidrs is_cidr has split digits_between decimal
office_json = refl

assert_ipacl-agrees_example :
    (((assert_ipacl true (some (codes " 10.1.2.3")) office ≡ ok tt)
        ⊎ (assert_ipacl true (some (codes " 10.1.2.3")) office ≡ err (api 403 "ip_not_allowed")))
      × ((assert_ipacl true (some (codes " 10.1.2.3")) office ≡ ok tt)
          ↔ IsListed (trim (codes " 10.1.2.3")) office))
    × (assert_ipacl true (some (codes " 10.1.2.3,8.8.8.8")) office
        ≡ assert_ipacl true (some (codes " 10.1.2.3")) office)
    × ((assert_ipacl false none office ≡ ok tt)
        × (assert_ipacl true none office ≡ ok tt)
        × (assert_ipacl true (some []) office ≡ ok tt))
unfolding is_v4_text has split digits_between trim
assert_ipacl-agrees_example =
    assert_ipacl-agrees (arr (texts office)) office (codes " 10.1.2.3") (codes "8.8.8.8") none
      office_json refl refl

-- An address outside the office is refused.
outside_refused :
    assert_ipacl true (some (codes "8.8.8.8,10.1.2.3")) office ≡ err (api 403 "ip_not_allowed")
unfolding assert_ipacl first_hop ip_allowed is_v4_text has split digits_between decimal trim
    v4_to_number papi.Ipacl.v4_range papi.Ipacl.in_range
outside_refused = refl
