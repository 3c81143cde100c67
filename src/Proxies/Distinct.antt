-- ===== src/Proxies/Distinct.antt =====
-- On the entries that parseProxyList of control-plane/lib/proxylib.ts gives.
use papi.Common.{
  ℕ, ◌≡◌, refl, ap, List, [], ◌∷◌, ◌++◌, map, true, Bool-cases, inl, inr, All, All-append,
}
use papi.Common.Text.{Text, member}
use papi.Common.Distinct.{distinct, distinct-append}
use papi.Proxies.{Entry, Parsed, got, refused, raised, Engine, parse_proxy_entry}
use papi.Proxies.Entries.{IsValid, parse_proxy_entry-IsValid}
use papi.Proxies.Listing.{Listing, listing_of, key_of, keep, note, add_entry, parse_proxy_list}
use papi.Proxies.Kept.{parse_proxy_list-Kept}

map-append :
    (es : List Entry) (e : Entry) → map key_of (es ++ e ∷ []) ≡ map key_of es ++ key_of e ∷ []
map-append [] e = refl
map-append (d ∷ es) e = ap (λ ks. key_of d ∷ ks) (map-append es e)

-- Every entry is valid, `seen` holds the keys of the entries, and no key comes twice.
abbrev pub IsSound : Listing → Type 0
IsSound l = All IsValid l.entries × (l.seen ≡ map key_of l.entries) × (distinct l.seen ≡ true)

keep-IsSound : (e : Entry) (l : Listing) → IsValid e → IsSound l → IsSound (keep e l)
unfolding keep
keep-IsSound e l v (valid, seen, differ) = elim (Bool-cases (member (key_of e) l.seen)) [
  | inl b ↦ rw b (valid, seen, differ)
  | inr b ↦ rw b (
    All-append IsValid l.entries (e ∷ []) valid (v, tt),
    rw (seen, map-append l.entries e) refl,
    distinct-append l.seen (key_of e) differ b,
  )
]

note-IsSound :
    (token : Text) (line : ℕ) (r : Parsed Entry) (l : Listing)
    → ((e : Entry) → r ≡ got e → IsValid e)
    → IsSound l
    → IsSound (listing_of (note token line r l))
unfolding note
note-IsSound token line (got e) l v s = keep-IsSound e l (v e refl) s
note-IsSound token line (refused reason) l v s = s
note-IsSound token line raised l v s = s

-- Every entry of the list that `parseProxyList` gives is valid, and no two of them have the same
-- key, whatever the text and the engine are, and also where an exception ends the parsing.
pub parse_proxy_list-IsSound :
    (engine : Engine) (raw : Text) → IsSound (listing_of (parse_proxy_list engine raw))
unfolding add_entry
parse_proxy_list-IsSound engine raw =
    parse_proxy_list-Kept engine IsSound
      (λ token line l s.
        note-IsSound token line (parse_proxy_entry engine token) l
          (parse_proxy_entry-IsValid engine token) s)
      raw (tt, refl, refl)
