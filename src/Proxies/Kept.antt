-- ===== src/Proxies/Kept.antt =====
-- On the loops of parseProxyList of control-plane/lib/proxylib.ts: a property of the listing is
-- followed through them.
use papi.Common.{
  ℕ, suc, List, [], ◌∷◌, Option, none, some, Bool, true, false, ◌&&◌, if◌then◌else◌, ◌==◌, length,
  Bool-cases, inl, inr,
}
use papi.Common.Text.{Text, split, trim}
use papi.Common.Cut.{cut_first, split_by, ends_with}
use papi.Proxies.{Engine, after_bracket}
use papi.Proxies.Listing.{
  Listing, Run, went, threw, listing_of, ◌then◌, or_caught, add_entry, add_items, add_line_items,
  add_tokens, add_split, or_tokens, add_content, add_line, add_lines, or_lines, empty_listing,
  parse_proxy_list, is_bracketed, is_separator, before_hash, strings_of,
}

module _ (engine : Engine) (P : Listing → Type 0)
    (kept : (token : Text) (line : ℕ) (l : Listing)
      → P l
      → P (listing_of (add_entry engine token line l))) where
  then-Kept :
      (r : Run) (rest : Listing → Run)
      → P (listing_of r)
      → ((l : Listing) → P l → P (listing_of (rest l)))
      → P (listing_of (r then rest))
  then-Kept (went l) rest p k = k l p
  then-Kept (threw l) rest p k = p

  caught-Kept :
      (r : Run) (rest : Listing → Run)
      → P (listing_of r)
      → ((l : Listing) → P l → P (listing_of (rest l)))
      → P (listing_of (or_caught r rest))
  caught-Kept (went l) rest p k = p
  caught-Kept (threw l) rest p k = k l p

  items-Kept :
      (line : ℕ) (items : List Text) (l : Listing)
      → P l
      → P (listing_of (add_items engine line items l))
  unfolding add_items
  items-Kept line [] l p = p
  items-Kept line (item ∷ items) l p =
      then-Kept (add_entry engine item line l) _ (kept item line l p)
        λ m. items-Kept (suc line) items m

  line_items-Kept :
      (line : ℕ) (items : List Text) (l : Listing)
      → P l
      → P (listing_of (add_line_items engine line items l))
  unfolding add_line_items
  line_items-Kept line [] l p = p
  line_items-Kept line (item ∷ items) l p =
      then-Kept (add_entry engine item line l) _ (kept item line l p)
        λ m. line_items-Kept line items m

  token-Kept :
      (test : Bool) (token : Text) (line : ℕ) (l : Listing)
      → P l
      → P (listing_of (if test then went l else add_entry engine token line l))
  token-Kept true token line l p = p
  token-Kept false token line l p = kept token line l p

  tokens-Kept :
      (line : ℕ) (tokens : List Text) (l : Listing)
      → P l
      → P (listing_of (add_tokens engine line tokens l))
  unfolding add_tokens
  tokens-Kept line [] l p = p
  tokens-Kept line (token ∷ tokens) l p =
      then-Kept (if length token == 0 then went l else add_entry engine token line l)
        (add_tokens engine line tokens) (token-Kept (length token == 0) token line l p)
        λ m. tokens-Kept line tokens m

  split-Kept :
      (line : ℕ) (text : Text) (l : Listing) → P l → P (listing_of (add_split engine line text l))
  unfolding add_split
  split-Kept line text = tokens-Kept line (split_by is_separator text)

  or_tokens-Kept :
      (line : ℕ) (text : Text) (found : Option (List Text)) (l : Listing)
      → P l
      → P (listing_of (or_tokens engine line text found l))
  unfolding or_tokens
  or_tokens-Kept line text none l p = split-Kept line text l p
  or_tokens-Kept line text (some items) l p =
      caught-Kept (add_line_items engine line items l) _ (line_items-Kept line items l p)
        (split-Kept line text)

  content-Kept :
      (line : ℕ) (text : Text) (l : Listing) → P l → P (listing_of (add_content engine line text l))
  unfolding add_content
  content-Kept line text l p = elim (Bool-cases (length text == 0)) [
    | inl e ↦ rw e p
    | inr e ↦ elim (Bool-cases (is_bracketed (after_bracket text) && ends_with b']' text)) [
      | inl b ↦ rw (e, b) (or_tokens-Kept line text (strings_of (engine.parse_json text)) l p)
      | inr b ↦ rw (e, b) (split-Kept line text l p)
    ]
  ]

  lines-Kept :
      (line : ℕ) (raws : List Text) (l : Listing)
      → P l
      → P (listing_of (add_lines engine line raws l))
  unfolding add_lines add_line
  lines-Kept line [] l p = p
  lines-Kept line (raw ∷ raws) l p =
      then-Kept (add_line engine line raw l) _
        (content-Kept line (before_hash (trim raw) (cut_first b'#' (trim raw))) l p)
        λ m. lines-Kept (suc line) raws m

  or_lines-Kept :
      (raw : Text) (found : Option (List Text)) (l : Listing)
      → P l
      → P (listing_of (or_lines engine raw found l))
  unfolding or_lines
  or_lines-Kept raw none l p = lines-Kept 1 (split 10 raw) l p
  or_lines-Kept raw (some items) l p =
      caught-Kept (add_items engine 1 items l) _ (items-Kept 1 items l p)
        (lines-Kept 1 (split 10 raw))

  pub parse_proxy_list-Kept :
      (raw : Text) → P empty_listing → P (listing_of (parse_proxy_list engine raw))
  unfolding parse_proxy_list
  parse_proxy_list-Kept raw p = elim (Bool-cases (is_bracketed (after_bracket (trim raw)))) [
    | inl b ↦ rw b (or_lines-Kept raw (strings_of (engine.parse_json (trim raw))) empty_listing p)
    | inr b ↦ rw b (or_lines-Kept raw none empty_listing p)
  ]
