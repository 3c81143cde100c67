-- ===== src/Proxies/Entries.antt =====
-- On the entries that parseProxyEntry of control-plane/lib/proxylib.ts gives.
use papi.Common.{
  ℕ, ◌≤◌, ◌<◌, ◌≡◌, refl, map, Option, none, some, Bool, true, false, not, if◌then◌else◌, ◌==◌,
  length, any, Bool-cases, inl, inr, arith,
}
use papi.Common.Text.{Text, codes, same, member, contains, to_lower, trim}
use papi.Common.Cut.{cut_last}
use papi.Proxies.{
  Entry, Parsed, got, refused, raised, ◌>>=◌, Engine, known_schemes, default_port, is_control,
  validate_host, validate_creds, in_port_range, port_of, or_refused, decoded, parse_scheme_url,
  Address, userinfo_of, address_at, after_bracket, checked, parse_bare, parse_proxy_entry,
  scheme_part,
}

abbrev pub IsValid : Entry → Type 0
IsValid e =
    (1 ≤ e.port)
    × (e.port ≤ 65535)
    × (0 < length e.host)
    × (any is_control e.user ≡ false)
    × (any is_control e.pass ≡ false)
    × (member e.scheme known_schemes ≡ true)

-- When a chain gives a value, its first part gave one, and the rest went on from there.
pub >>=-eq-got {ℓ κ} :
    {A : Type ℓ} {B : Type κ} (first : Parsed A) (rest : A → Parsed B) {last : B}
    → (first >>= rest) ≡ got last
    → (value : A) × (first ≡ got value) × (rest value ≡ got last)
>>=-eq-got (got value) rest h = (value, refl, h)
>>=-eq-got (refused reason) rest h = cc
>>=-eq-got raised rest h = cc

-- A value comes from the branch that does not refuse.
pub refused-eq-got {ℓ} :
    {A : Type ℓ} (test : Bool) (reason : Text) (rest : Parsed A) {last : A}
    → (if test then refused reason else rest) ≡ got last
    → (test ≡ false) × (rest ≡ got last)
refused-eq-got true reason rest h = cc
refused-eq-got false reason rest h = (refl, h)

default_port-bounds : (scheme : Text) → (1 ≤ default_port scheme) × (default_port scheme ≤ 65535)
unfolding default_port
default_port-bounds scheme = ground arith

in_port_range-bounds :
    (raw : Text) (n : Option ℕ) (p : ℕ) → in_port_range raw n ≡ got p → (1 ≤ p) × (p ≤ 65535)
unfolding in_port_range
in_port_range-bounds raw none p h = ground arith
in_port_range-bounds raw (some n) p h = ground arith

pub port_of-bounds :
    (engine : Engine) (raw scheme : Text) (p : ℕ)
    → port_of engine raw scheme ≡ got p
    → (1 ≤ p) × (p ≤ 65535)
unfolding port_of
port_of-bounds engine raw scheme p h =
    ground (arith, default_port-bounds scheme, in_port_range-bounds raw (engine.number raw) p)

validate_creds-clean :
    (user pass : Text) (u : Unit {0})
    → validate_creds user pass ≡ got u
    → (any is_control user ≡ false) × (any is_control pass ≡ false)
unfolding validate_creds
validate_creds-clean user pass u h = ground arith

checked-IsValid : (engine : Engine) (a : Address) (e : Entry) → checked engine a ≡ got e → IsValid e
unfolding checked member same
checked-IsValid engine a e h =
    let (b, h0) = refused-eq-got (length a.host == 0) _ _ h in
    let (port, hp, h1) = >>=-eq-got (port_of engine a.port_text (codes "http")) _ h0 in
    let (u, hu, h2) = >>=-eq-got (validate_host a.host) _ h1 in
    let (v, hv, h3) = >>=-eq-got (validate_creds a.user a.pass) _ h2 in
    ground (
      arith,
      port_of-bounds engine a.port_text (codes "http") port hp,
      validate_creds-clean a.user a.pass v hv,
    )

scheme_url-IsValid :
    (engine : Engine) (token : Text) (e : Entry) → parse_scheme_url engine token ≡ got e → IsValid e
unfolding parse_scheme_url
scheme_url-IsValid engine token e h =
    let scheme = map to_lower (scheme_part token) in
    let (b, h0) = refused-eq-got (not (member scheme known_schemes)) _ _ h in
    let (u, hu, h1) =
      >>=-eq-got (or_refused (engine.new_url token) (codes "malformed proxy URL")) _ h0 in
    let (b1, h2) = refused-eq-got (length u.hostname == 0) _ _ h1 in
    let (port, hp, h3) = >>=-eq-got (port_of engine u.url_port scheme) _ h2 in
    let (user, hu, h4) = >>=-eq-got (decoded engine u.username) _ h3 in
    let (pass, hw, h5) = >>=-eq-got (decoded engine u.password) _ h4 in
    let (v, hv, h6) = >>=-eq-got (validate_creds user pass) _ h5 in
    ground
      (arith, port_of-bounds engine u.url_port scheme port hp, validate_creds-clean user pass v hv)

bare-IsValid :
    (engine : Engine) (token : Text) (e : Entry) → parse_bare engine token ≡ got e → IsValid e
unfolding parse_bare
bare-IsValid engine token e h =
    let (at, h0, h1) = >>=-eq-got (userinfo_of token (cut_last b'@' token)) _ h in
    let (a, h2, h3) = >>=-eq-got (address_at at (after_bracket at.rest)) _ h1 in
    checked-IsValid engine a e h3

-- An entry that `parseProxyEntry` gives has a known scheme, a host, a port between 1 and 65535, and
-- no control characters in its credentials.
pub parse_proxy_entry-IsValid :
    (engine : Engine) (token : Text) (e : Entry)
    → parse_proxy_entry engine token ≡ got e
    → IsValid e
unfolding parse_proxy_entry
parse_proxy_entry-IsValid engine token e h =
    let (b, h0) = refused-eq-got (length (trim token) == 0) _ _ h in
    elim (Bool-cases (contains (trim token) (codes "://"))) [
      | inl url ↦ scheme_url-IsValid engine (trim token) e (cc)
      | inr bare ↦ bare-IsValid engine (trim token) e (cc)
    ]
