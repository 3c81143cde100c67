-- ===== src/Proxies.antt =====
-- control-plane/lib/proxylib.ts: one entry of a list of proxies, read, shown and normalised. The
-- lists of entries are in Proxies/Listing.
pub mod Listing
pub mod Entries
pub mod Kept
pub mod Distinct
pub mod RoundTrip
mod Tests
use papi.Common.{
  ℕ, ◌≤◌, List, [], ◌∷◌, ◌++◌, map, Option, none, some, Bool, true, false, not, ◌&&◌, ◌||◌,
  if◌then◌else◌, ltb, leb, ◌==◌, length, all, any,
}
use papi.Common.Text.{
  Text, codes, same, has, member, starts_with, contains, split, is_digit, to_lower, is_space, trim,
}
use papi.Common.Cut.{Cut, cut_first, cut_last, count, print}
use papi.Common.Json.{Json}

pub record Entry : Type 0 where
  pub scheme : Text
  pub host : Text
  pub port : ℕ
  pub user : Text
  pub pass : Text

-- A value, the reason that the code returns in its place, or an exception.
pub data Parsed {ℓ} (A : Type ℓ) : Type ℓ where
  got : (value : A) → Parsed A
  refused : (reason : Text) → Parsed A
  raised : Parsed A

module _ {ℓ κ} {A : Type ℓ} {B : Type κ} where
  infixl 5 ◌>>=◌
  abbrev pub ◌>>=◌ : Parsed A → (A → Parsed B) → Parsed B
  got value >>= rest = rest value
  refused reason >>= rest = refused reason
  raised >>= rest = raised

-- What `new URL` gives, of which the code reads these four; absent parts are empty.
pub record Url : Type 0 where
  pub hostname : Text
  pub url_port : Text
  pub username : Text
  pub password : Text

-- What the JavaScript engine does with a text: `number` is `Number` where that is a natural number
-- and `none` elsewhere, `new_url` and `parse_json` give `none` for an exception, as does
-- `decode_component`, which is `decodeURIComponent`.
pub record Engine : Type 0 where
  pub number : Text → Option ℕ
  pub new_url : Text → Option Url
  pub decode_component : Text → Option Text
  pub parse_json : Text → Option Json

abbrev pub known_schemes : List Text
known_schemes =
    codes "http"
    ∷ codes "https"
    ∷ codes "socks4"
    ∷ codes "socks4a"
    ∷ codes "socks5"
    ∷ codes "socks5h"
    ∷ []

unfoldable pub default_port : Text → ℕ
default_port scheme =
    if same scheme (codes "http") then 80 else if same scheme (codes "https") then 443 else 1080

-- `[\s/\\@]`
abbrev pub is_host_breaker : ℕ → Bool
is_host_breaker c = is_space c || c == b'/' || c == 92 || c == b'@'

-- `[A-Za-z0-9._:\-\[\]]`
abbrev pub is_host_character : ℕ → Bool
is_host_character c =
    (leb b'A' c && leb c b'Z')
    || (leb b'a' c && leb c b'z')
    || is_digit c
    || c == b'.'
    || c == b'_'
    || c == b':'
    || c == b'-'
    || c == b'['
    || c == b']'

unfoldable pub validate_host : Text → Parsed (Unit {0})
validate_host host =
    if length host == 0
    then refused (codes "missing proxy host")
    else if any is_host_breaker host
    then refused (codes "invalid proxy host \"" ++ host ++ codes "\"")
    else if not (all is_host_character host)
    then refused (codes "invalid character in proxy host \"" ++ host ++ codes "\"")
    else got tt

-- `[\x00-\x1f\x7f]`
abbrev pub is_control : ℕ → Bool
is_control c = leb c 0x1f || c == 0x7f

unfoldable pub validate_creds : Text → Text → Parsed (Unit {0})
validate_creds user pass =
    if any is_control user || any is_control pass
    then refused (codes "proxy credentials contain control characters")
    else got tt

in_port_range : Text → Option ℕ → Parsed ℕ
in_port_range raw none = refused (codes "invalid proxy port \"" ++ raw ++ codes "\"")
in_port_range raw (some p) =
    if ltb p 1 || ltb 65535 p
    then refused (codes "invalid proxy port \"" ++ raw ++ codes "\"")
    else got p

-- An empty `raw` stands for `undefined` too.
unfoldable pub port_of : Engine → Text → Text → Parsed ℕ
unfolding in_port_range
port_of engine raw scheme =
    if length raw == 0 then got (default_port scheme) else in_port_range raw (engine.number raw)

or_refused {ℓ} : {A : Type ℓ} → Option A → Text → Parsed A
or_refused none reason = refused reason
or_refused (some a) reason = got a

or_raised : Option Text → Parsed Text
or_raised none = raised
or_raised (some t) = got t

-- `t ? decodeURIComponent(t) : ''`
decoded : Engine → Text → Parsed Text
unfolding or_raised
decoded engine t = if length t == 0 then got [] else or_raised (engine.decode_component t)

-- What stands before `://`; it is only read where there is one.
unfoldable pub scheme_part : Text → Text
scheme_part [] = []
scheme_part (x ∷ s) =
    let rest = scheme_part s in if starts_with (x ∷ s) (codes "://") then [] else x ∷ rest

parse_scheme_url : Engine → Text → Parsed Entry
unfolding scheme_part or_refused port_of decoded validate_creds
parse_scheme_url engine token =
    let scheme = map to_lower (scheme_part token) in
    if not (member scheme known_schemes)
    then refused (codes "unsupported proxy scheme \"" ++ scheme ++ codes "\"")
    else (or_refused (engine.new_url token) (codes "malformed proxy URL") >>= λ u.
        if length u.hostname == 0
        then refused (codes "missing proxy host")
        else (port_of engine u.url_port scheme >>= λ port. decoded engine u.username >>= λ user.
            decoded engine u.password >>= λ pass. validate_creds user pass >>= λ _.
            got (record {
              scheme = scheme;
              host = u.hostname;
              port = port;
              user = user;
              pass = pass;
            })))

-- The variables `user`, `pass` and `rest` of `parseBare`.
pub record Split : Type 0 where
  pub user : Text
  pub pass : Text
  pub rest : Text

-- `userinfo.indexOf(':')` and the slices.
user_of : Text → Text → Cut → Split
user_of userinfo rest none = record { user = userinfo; pass = []; rest = rest }
user_of userinfo rest (some (user, pass)) = record { user = user; pass = pass; rest = rest }

some_creds : Split → Parsed Split
some_creds at =
    if length at.user == 0 && length at.pass == 0
    then refused (codes "empty proxy credentials")
    else got at

userinfo_of : Text → Cut → Parsed Split
unfolding user_of some_creds
userinfo_of token none = got (record { user = []; pass = []; rest = token })
userinfo_of token (some (userinfo, rest)) =
    if length userinfo == 0
    then refused (codes "empty proxy credentials")
    else some_creds (user_of userinfo rest (cut_first b':' userinfo))

-- The variables `host`, `portStr`, `user` and `pass` once the host is found.
pub record Address : Type 0 where
  pub host : Text
  pub port_text : Text
  pub user : Text
  pub pass : Text

-- `host:port:user:pass`; a text with three colons has four parts.
four_parts : List Text → Parsed Address
four_parts (host ∷ port_text ∷ user ∷ pass ∷ []) =
    got (record { host = host; port_text = port_text; user = user; pass = pass })
four_parts _ = refused (codes "missing proxy host")

-- The parts after the colon that follows a bracket.
tail_parts : Split → Text → List Text → Parsed Address
tail_parts at host [] = got (record { host = host; port_text = []; user = at.user; pass = at.pass })
tail_parts at host (port_text ∷ user ∷ pass ∷ []) =
    if length at.user == 0
    then got (record { host = host; port_text = port_text; user = user; pass = pass })
    else got (record { host = host; port_text = port_text; user = at.user; pass = at.pass })
tail_parts at host (port_text ∷ rest) =
    got (record { host = host; port_text = port_text; user = at.user; pass = at.pass })

bracket_tail : Split → Text → Text → Parsed Address
unfolding tail_parts
bracket_tail at host [] =
    got (record { host = host; port_text = []; user = at.user; pass = at.pass })
bracket_tail at host (c ∷ tail) =
    if c == b':' then tail_parts at host (split b':' tail) else refused (codes "missing proxy host")

-- `rest.indexOf(']')` and the slices, after the opening bracket.
bracketed : Split → Cut → Parsed Address
unfolding bracket_tail
bracketed at none = refused (codes "missing proxy host")
bracketed at (some (host, tail)) = bracket_tail at host tail

one_or_two : Split → List Text → Parsed Address
one_or_two at (host ∷ []) =
    got (record { host = host; port_text = []; user = at.user; pass = at.pass })
one_or_two at (host ∷ port_text ∷ []) =
    got (record { host = host; port_text = port_text; user = at.user; pass = at.pass })
one_or_two at _ = refused (codes "missing proxy host")

-- `rest.startsWith('[')` and what follows it.
unfoldable pub after_bracket : Text → Option Text
after_bracket [] = none
after_bracket (c ∷ s) = if c == b'[' then some s else none

address_at : Split → Option Text → Parsed Address
unfolding four_parts bracketed one_or_two
address_at at (some inside) = bracketed at (cut_first b']' inside)
address_at at none =
    if length at.user == 0 && length at.pass == 0 && count b':' at.rest == 3
    then four_parts (split b':' at.rest)
    else one_or_two at (split b':' at.rest)

checked : Engine → Address → Parsed Entry
unfolding port_of validate_host validate_creds
checked engine a =
    if length a.host == 0
    then refused (codes "missing proxy host")
    else (port_of engine a.port_text (codes "http") >>= λ port. validate_host a.host >>= λ _.
        validate_creds a.user a.pass >>= λ _. got (record {
          scheme = codes "http";
          host = a.host;
          port = port;
          user = a.user;
          pass = a.pass;
        }))

unfoldable pub parse_bare : Engine → Text → Parsed Entry
unfolding userinfo_of address_at checked
parse_bare engine token = userinfo_of token (cut_last b'@' token) >>= λ at.
    address_at at (after_bracket at.rest) >>= λ a. checked engine a

unfoldable pub parse_proxy_entry : Engine → Text → Parsed Entry
unfolding parse_bare parse_scheme_url
parse_proxy_entry engine token =
    let trimmed = trim token in
    if length trimmed == 0
    then refused (codes "empty proxy entry")
    else if contains trimmed (codes "://")
    then parse_scheme_url engine trimmed
    else parse_bare engine trimmed

-- `[host]:port` for a host with a colon.
unfoldable pub hostport : Entry → Text
hostport entry =
    if has b':' entry.host
    then b'[' ∷ (entry.host ++ codes "]:" ++ print entry.port)
    else entry.host ++ b':' ∷ print entry.port

unfoldable pub mask_proxy : Entry → Text
unfolding hostport
mask_proxy entry =
    if length entry.user == 0
    then entry.scheme ++ codes "://" ++ hostport entry
    else entry.scheme ++ codes "://" ++ entry.user ++ codes ":****@" ++ hostport entry

unfoldable pub normalize_proxy : Entry → Text
unfolding hostport
normalize_proxy entry =
    let creds =
      if length entry.user == 0 then [] else entry.user ++ b':' ∷ entry.pass ++ codes "@" in
    entry.scheme ++ codes "://" ++ creds ++ hostport entry
