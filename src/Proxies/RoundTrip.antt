-- ===== src/Proxies/RoundTrip.antt =====
-- On parseBare of control-plane/lib/proxylib.ts and the ways to write an entry without a scheme.
pub mod Colons
use mathlib.Core.List.{append_assoc}
use papi.Common.{
  ℕ, ◌≤◌, ◌<◌, ◌≡◌, refl, sym, [], ◌∷◌, ◌++◌, none, some, Bool, true, false, not, ◌&&◌, ◌||◌, ◌==◌,
  length, length-append, all, any, arith, &&_split,
}
use papi.Common.Text.{Text, codes, has}
use papi.Common.Cut.{
  cut_last, print, length-print, print-digits, cut_last-none, cut_last-append, cut_first-append,
  count-zero, count-append, split-whole, split-append, has-append, digits-without,
}
use papi.Proxies.{
  Entry, got, Engine, is_control, is_host_character, is_host_breaker, validate_host, validate_creds,
  in_port_range, port_of, userinfo_of, user_of, some_creds, address_at, one_or_two, four_parts,
  after_bracket, checked, parse_bare,
}

-- `Number` reads what a template prints.
abbrev pub ReadsDigits : Engine → Type 0
ReadsDigits engine = (n : ℕ) → engine.number (print n) ≡ some n

-- A character of a host name that is not an IPv6 address.
abbrev pub is_name_character : ℕ → Bool
is_name_character c = is_host_character c && not (c == b':' || c == b'[' || c == b']')

abbrev pub entry_at : Text → ℕ → Text → Text → Entry
entry_at host port user pass = record {
  scheme = codes "http";
  host = host;
  port = port;
  user = user;
  pass = pass;
}

-- A host that can be written without brackets, a port, and credentials without control characters.
pub record IsWritten (host : Text) (port : ℕ) (user pass : Text) : Type 0 where
  pub host_some : 0 < length host
  pub host_name : all is_name_character host ≡ true
  pub port_low : 1 ≤ port
  pub port_high : port ≤ 65535
  pub user_clean : any is_control user ≡ false
  pub pass_clean : any is_control pass ≡ false

name-without :
    (c : ℕ) (s : Text)
    → is_name_character c ≡ false
    → all is_name_character s ≡ true
    → has c s ≡ false
unfolding has
name-without c [] h k = refl
name-without c (x ∷ s) h k = grind (arith, name-without c s)

all_mono :
    (p q : ℕ → Bool) (s : Text)
    → ((c : ℕ) → p c ≡ true → q c ≡ true)
    → all p s ≡ true
    → all q s ≡ true
all_mono p q [] f h = refl
all_mono p q (x ∷ s) f h = ground (arith, all_mono p q s f, f x)

any-none :
    (p q : ℕ → Bool) (s : Text)
    → ((c : ℕ) → p c ≡ true → q c ≡ false)
    → all p s ≡ true
    → any q s ≡ false
any-none p q [] f h = refl
any-none p q (x ∷ s) f h = ground (arith, any-none p q s f, f x)

host_unbroken : (c : ℕ) → is_host_character c ≡ true → is_host_breaker c ≡ false
host_unbroken c h = ground arith

validate_host-name :
    (s : Text) → 0 < length s → all is_name_character s ≡ true → validate_host s ≡ got tt
unfolding validate_host
validate_host-name s n h =
    let chars =
      all_mono is_name_character is_host_character s (λ c k. (&&_split (is_host_character c) _ k).0)
        h in
    rw (any-none is_host_character is_host_breaker s host_unbroken chars, chars) (ground (arith, n))

port_of-print :
    (engine : Engine) (port : ℕ) (scheme : Text)
    → ReadsDigits engine
    → 1 ≤ port
    → port ≤ 65535
    → port_of engine (print port) scheme ≡ got port
unfolding port_of in_port_range
port_of-print engine port scheme reads low high =
    rw (reads port) (ground (arith, length-print port))

checked-got :
    (engine : Engine) (host : Text) (port : ℕ) (user pass : Text)
    → ReadsDigits engine
    → IsWritten host port user pass
    → checked engine (record { host = host; port_text = print port; user = user; pass = pass })
      ≡ got (entry_at host port user pass)
unfolding checked validate_creds
checked-got engine host port user pass reads w =
    rw
      (
        port_of-print engine port (codes "http") reads w.port_low w.port_high,
        validate_host-name host w.host_some w.host_name,
        w.user_clean,
        w.pass_clean,
      )
      (ground (arith, w.host_some))

after_bracket-name :
    (host rest : Text)
    → 0 < length host
    → all is_name_character host ≡ true
    → after_bracket (host ++ rest) ≡ none
unfolding after_bracket
after_bracket-name [] rest n h = ground arith
after_bracket-name (c ∷ host) rest n h = ground arith

address-split :
    (user pass host : Text) (port : ℕ)
    → 0 < length user
    → 0 < length host
    → all is_name_character host ≡ true
    → address_at (record { user = user; pass = pass; rest = host ++ b':' ∷ print port }) none
      ≡ got (record { host = host; port_text = print port; user = user; pass = pass })
unfolding address_at one_or_two
address-split user pass host port u n h =
    rw
      (
        split-append b':' host (print port) (name-without b':' host refl h),
        split-whole b':' (print port) (digits-without b':' (print port) refl (print-digits port)),
      )
      (ground arith)

address-without :
    (host : Text) (port : ℕ)
    → all is_name_character host ≡ true
    → has b'@' (host ++ b':' ∷ print port) ≡ false
unfolding has
address-without host port h =
    rw (has-append b'@' host (b':' ∷ print port), name-without b'@' host refl h)
      (digits-without b'@' (print port) refl (print-digits port))

userinfo-cut :
    (user pass address : Text)
    → 0 < length user
    → has b':' user ≡ false
    → has b'@' address ≡ false
    → userinfo_of
        (user ++ b':' ∷ (pass ++ b'@' ∷ address))
        (cut_last b'@' (user ++ b':' ∷ (pass ++ b'@' ∷ address)))
      ≡ got (record { user = user; pass = pass; rest = address })
unfolding userinfo_of user_of some_creds
userinfo-cut user pass address u c a =
    let assoc : user ++ b':' ∷ (pass ++ b'@' ∷ address) ≡ (user ++ b':' ∷ pass) ++ b'@' ∷ address =
      sym (append_assoc user (b':' ∷ pass) (b'@' ∷ address)) in
    rw
      (
        assoc,
        cut_last-append b'@' (user ++ b':' ∷ pass) address a,
        cut_first-append b':' user pass c,
      )
      (ground (arith, length-append user (b':' ∷ pass)))

-- `parseBare` reads `user:pass@host:port` back to its parts, for a host of name characters, a port
-- between 1 and 65535, credentials without control characters and a non-empty user without a colon;
-- the password may hold colons and at signs.
pub parse_bare-at :
    (engine : Engine) (host : Text) (port : ℕ) (user pass : Text)
    → ReadsDigits engine
    → IsWritten host port user pass
    → 0 < length user
    → has b':' user ≡ false
    → parse_bare engine (user ++ b':' ∷ (pass ++ b'@' ∷ (host ++ b':' ∷ print port)))
      ≡ got (entry_at host port user pass)
unfolding parse_bare
parse_bare-at engine host port user pass reads w u c =
    rw
      (
        userinfo-cut user pass (host ++ b':' ∷ print port) u c
            (address-without host port w.host_name),
        after_bracket-name host (b':' ∷ print port) w.host_some w.host_name,
        address-split user pass host port u w.host_some w.host_name,
        checked-got engine host port user pass reads w,
      )
      refl
