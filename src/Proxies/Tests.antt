-- ===== src/Proxies/Tests.antt =====
-- Runs of control-plane/lib/proxylib.ts on concrete lists.
use papi.Common.{
  ℕ, ◌≤◌, ◌<◌, ◌≡◌, refl, List, [], ◌∷◌, ◌++◌, Option, none, some, Bool, true, false, ◌&&◌,
  if◌then◌else◌, leb, ◌==◌, length, all, ltb, arith,
}
use papi.Common.Text.{Text, codes, same, has, is_digit, decimal}
use papi.Common.Cut.{print, print-digits, length-print, decimal-print}
use papi.Proxies.{
  Entry, Parsed, got, refused, raised, Url, Engine, parse_bare, parse_proxy_entry, mask_proxy,
  normalize_proxy,
}
use papi.Proxies.Listing.{went, threw, listing_of, parse_proxy_list}
use papi.Proxies.Distinct.{IsSound, parse_proxy_list-IsSound}
use papi.Proxies.RoundTrip.{ReadsDigits, IsWritten, entry_at, parse_bare-at}
use papi.Proxies.RoundTrip.Colons.{parse_bare-colons}

-- `Number` on texts of digits.
unfoldable digits_number : Text → Option ℕ
digits_number s = if ltb 0 (length s) && all is_digit s then some (decimal s) else none

-- `new URL` on two addresses.
abbrev two_urls : Text → Option Url
two_urls s =
    if same s (codes "http://%zz@h")
    then some
        (record { hostname = codes "h"; url_port = []; username = codes "%zz"; password = [] })
    else if same s (codes "http://[::1]")
    then some (record { hostname = codes "[::1]"; url_port = []; username = []; password = [] })
    else none

abbrev engine : Engine
engine = record {
  number = digits_number;
  new_url = two_urls;
  decode_component = λ s. if has b'%' s then none else some s;
  parse_json = λ s. none;
}

engine-ReadsDigits : ReadsDigits engine
unfolding digits_number
engine-ReadsDigits n = rw (print-digits n, decimal-print n) (ground (arith, length-print n))

abbrev proxy : Entry
proxy = entry_at (codes "h.io") 8080 (codes "ann") (codes "pw")

proxy-IsWritten : IsWritten (codes "h.io") 8080 (codes "ann") (codes "pw")
proxy-IsWritten = record {
  host_some = omega arith;
  host_name = refl;
  port_low = omega arith;
  port_high = omega arith;
  user_clean = refl;
  pass_clean = refl;
}

parse_bare-at_example : parse_bare engine (codes "ann:pw@h.io:8080") ≡ got proxy
unfolding has print
parse_bare-at_example =
    parse_bare-at engine (codes "h.io") 8080 (codes "ann") (codes "pw") engine-ReadsDigits
      proxy-IsWritten (omega arith) refl

colons_read : parse_bare engine (codes "h.io:8080:ann:pw") ≡ got proxy
unfolding has print
colons_read =
    parse_bare-colons engine (codes "h.io") 8080 (codes "ann") (codes "pw") engine-ReadsDigits
      proxy-IsWritten refl refl refl refl

parse_proxy_list-IsSound_example :
    IsSound (listing_of (parse_proxy_list engine (codes "h.io:8080;h.io:8080 x:0")))
parse_proxy_list-IsSound_example = parse_proxy_list-IsSound engine (codes "h.io:8080;h.io:8080 x:0")

-- One entry twice, and one with a bad port.
list_run :
    parse_proxy_list engine (codes "h.io:8080;h.io:8080 x:0 # more")
    ≡ went (record {
      entries = entry_at (codes "h.io") 8080 [] [] ∷ [];
      errors =
          record { line = 1; text = codes "x:0"; reason = codes "invalid proxy port \"0\"" } ∷ [];
      seen = codes "http://:@h.io:8080" ∷ [];
    })
unfolding parse_proxy_list papi.Proxies.after_bracket papi.Common.Text.trim papi.Common.Text.split
    papi.Common.Cut.cut_first papi.Common.Cut.split_by parse_proxy_entry papi.Common.Text.contains
    papi.Common.Cut.cut_last papi.Common.Cut.count digits_number decimal papi.Common.Text.member
    same print
list_run = refl

-- A user name that `decodeURIComponent` refuses ends the parsing by an exception.
undecodable :
    parse_proxy_list engine (codes "http://%zz@h")
    ≡ threw (record { entries = []; errors = []; seen = [] })
unfolding parse_proxy_list papi.Proxies.after_bracket papi.Common.Text.trim papi.Common.Text.split
    papi.Common.Cut.cut_first papi.Common.Cut.split_by parse_proxy_entry papi.Common.Text.contains
    papi.Common.Text.member same has
undecodable = refl

-- A bracketed address keeps the brackets that `URL` gives, and is shown with two pairs.
url_brackets :
    parse_proxy_entry engine (codes "http://[::1]") ≡ got (entry_at (codes "[::1]") 80 [] [])
unfolding parse_proxy_entry papi.Common.Text.trim papi.Common.Text.contains papi.Common.Text.member
    same papi.Proxies.default_port
url_brackets = refl

two_brackets : mask_proxy (entry_at (codes "[::1]") 80 [] []) ≡ codes "http://[[::1]]:80"
unfolding mask_proxy print has
two_brackets = refl
