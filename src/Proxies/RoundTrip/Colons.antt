-- ===== src/Proxies/RoundTrip/Colons.antt =====
-- On the other form of `parseBare` of control-plane/lib/proxylib.ts, with colons only.
use papi.Common.{ℕ, ◌≡◌, refl, [], ◌∷◌, ◌++◌, none, true, false, all}
use papi.Common.Text.{Text, has}
use papi.Common.Cut.{
  print, print-digits, cut_last-none, count-zero, count-append, split-whole, split-append,
  has-append, digits-without,
}
use papi.Proxies.{got, Engine, userinfo_of, address_at, four_parts, parse_bare}
use papi.Proxies.RoundTrip.{
  ReadsDigits, is_name_character, entry_at, IsWritten, name-without, checked-got,
  after_bracket-name,
}

colons-without :
    (host : Text) (port : ℕ) (user pass : Text)
    → all is_name_character host ≡ true
    → has b'@' user ≡ false
    → has b'@' pass ≡ false
    → has b'@' (host ++ b':' ∷ (print port ++ b':' ∷ (user ++ b':' ∷ pass))) ≡ false
unfolding has
colons-without host port user pass h u p =
    rw
      (
        has-append b'@' host (b':' ∷ (print port ++ b':' ∷ (user ++ b':' ∷ pass))),
        name-without b'@' host refl h,
        has-append b'@' (print port) (b':' ∷ user ++ b':' ∷ pass),
        digits-without b'@' (print port) refl (print-digits port),
        has-append b'@' user (b':' ∷ pass),
        u,
      )
      p

address-colons :
    (host : Text) (port : ℕ) (user pass : Text)
    → all is_name_character host ≡ true
    → has b':' user ≡ false
    → has b':' pass ≡ false
    → address_at
        (record {
          user = [];
          pass = [];
          rest = host ++ b':' ∷ (print port ++ b':' ∷ (user ++ b':' ∷ pass));
        })
        none
      ≡ got (record { host = host; port_text = print port; user = user; pass = pass })
unfolding address_at four_parts
address-colons host port user pass h u p =
    let no_host = name-without b':' host refl h in
    let no_port = digits-without b':' (print port) refl (print-digits port) in
    rw
      (
        count-append b':' host (print port ++ b':' ∷ (user ++ b':' ∷ pass)) no_host,
        count-append b':' (print port) (user ++ b':' ∷ pass) no_port,
        count-append b':' user pass u,
        count-zero b':' pass p,
        split-append b':' host (print port ++ b':' ∷ (user ++ b':' ∷ pass)) no_host,
        split-append b':' (print port) (user ++ b':' ∷ pass) no_port,
        split-append b':' user pass u,
        split-whole b':' pass p,
      )
      refl

-- `parseBare` reads `host:port:user:pass` back to its parts, for a host of name characters, a port
-- between 1 and 65535, and credentials without control characters, colons and at signs.
pub parse_bare-colons :
    (engine : Engine) (host : Text) (port : ℕ) (user pass : Text)
    → ReadsDigits engine
    → IsWritten host port user pass
    → has b':' user ≡ false
    → has b':' pass ≡ false
    → has b'@' user ≡ false
    → has b'@' pass ≡ false
    → parse_bare engine (host ++ b':' ∷ (print port ++ b':' ∷ (user ++ b':' ∷ pass)))
      ≡ got (entry_at host port user pass)
unfolding parse_bare userinfo_of
parse_bare-colons engine host port user pass reads w u p v q =
    rw
      (
        cut_last-none b'@' (host ++ b':' ∷ (print port ++ b':' ∷ (user ++ b':' ∷ pass)))
            (colons-without host port user pass w.host_name v q),
        after_bracket-name host (b':' ∷ (print port ++ b':' ∷ (user ++ b':' ∷ pass))) w.host_some
            w.host_name,
        address-colons host port user pass w.host_name u p,
        checked-got engine host port user pass reads w,
      )
      refl
