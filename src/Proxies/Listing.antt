-- ===== src/Proxies/Listing.antt =====
-- control-plane/lib/proxylib.ts, `addEntry` and `parseProxyList`: a list of proxies in the lines
-- of a text or in a JSON array, with an error for each entry that is refused.
use papi.Common.{
  ℕ, suc, List, [], ◌∷◌, ◌++◌, Option, none, some, Bool, true, false, ◌&&◌, ◌||◌, if◌then◌else◌,
  ◌==◌, length,
}
use papi.Common.Text.{Text, codes, member, split, is_space, trim}
use papi.Common.Cut.{Cut, cut_first, split_by, ends_with, print}
use papi.Common.Json.{Json, str, arr, Items, nil, cons}
use papi.Proxies.{Entry, Parsed, got, refused, raised, Engine, parse_proxy_entry, after_bracket}

pub record LineError : Type 0 where
  pub line : ℕ
  pub text : Text
  pub reason : Text

-- The variables `entries`, `errors` and `seen`.
pub record Listing : Type 0 where
  pub entries : List Entry
  pub errors : List LineError
  pub seen : List Text

-- The listing after a part of the code, and whether that part ended by an exception.
pub data Run : Type 0 where
  went : (listing : Listing) → Run
  threw : (listing : Listing) → Run

abbrev pub listing_of : Run → Listing
listing_of (went l) = l
listing_of (threw l) = l

-- The code after a part that may throw.
infixl 5 ◌then◌
abbrev pub ◌then◌ : Run → (Listing → Run) → Run
(went l) then rest = rest l
(threw l) then rest = threw l

-- `try { first; return } catch {}` and the code after it.
abbrev pub or_caught : Run → (Listing → Run) → Run
or_caught (went l) rest = went l
or_caught (threw l) rest = rest l

unfoldable pub key_of : Entry → Text
key_of e =
    e.scheme ++ codes "://" ++ e.user ++ b':' ∷ e.pass ++ b'@' ∷ e.host ++ b':' ∷ print e.port

unfoldable pub keep : Entry → Listing → Listing
unfolding key_of
keep e l =
    if member (key_of e) l.seen
    then l
    else record l { entries = l.entries ++ e ∷ []; seen = l.seen ++ key_of e ∷ [] }

unfoldable pub note : Text → ℕ → Parsed Entry → Listing → Run
unfolding keep
note token line (refused reason) l = went (record l {
  errors = l.errors ++ record { line = line; text = trim token; reason = reason } ∷ [];
})
note token line (got e) l = went (keep e l)
note token line raised l = threw l

unfoldable pub add_entry : Engine → Text → ℕ → Listing → Run
unfolding note
add_entry engine token line l = note token line (parse_proxy_entry engine token) l

-- `Array.isArray(list) && list.every(item => typeof item === 'string')`
abbrev pub or_both : Text → Option (List Text) → Option (List Text)
or_both s none = none
or_both s (some ss) = some (s ∷ ss)

texts_of : Items → Option (List Text)
texts_of nil = some []
texts_of (cons (str s) rest) = or_both s (texts_of rest)
texts_of (cons item rest) = none

unfoldable pub strings_of : Option Json → Option (List Text)
unfolding texts_of
strings_of (some (arr items)) = texts_of items
strings_of _ = none

-- The whole text is an array: an item's line is its place in it.
unfoldable pub add_items : Engine → ℕ → List Text → Listing → Run
unfolding add_entry
add_items engine line [] l = went l
add_items engine line (item ∷ items) l =
    add_entry engine item line l then add_items engine (suc line) items

-- The items of an array that is one line.
unfoldable pub add_line_items : Engine → ℕ → List Text → Listing → Run
unfolding add_entry
add_line_items engine line [] l = went l
add_line_items engine line (item ∷ items) l =
    add_entry engine item line l then add_line_items engine line items

-- `[,\s;]`. A run of these separates as one of them does, since empty tokens are skipped.
abbrev pub is_separator : ℕ → Bool
is_separator c = c == b',' || is_space c || c == b';'

unfoldable pub add_tokens : Engine → ℕ → List Text → Listing → Run
unfolding add_entry
add_tokens engine line [] l = went l
add_tokens engine line (token ∷ tokens) l =
    (if length token == 0 then went l else add_entry engine token line l)
    then add_tokens engine line tokens

unfoldable pub add_split : Engine → ℕ → Text → Listing → Run
unfolding add_tokens
add_split engine line text l = add_tokens engine line (split_by is_separator text) l

unfoldable pub or_tokens : Engine → ℕ → Text → Option (List Text) → Listing → Run
unfolding add_line_items add_split
or_tokens engine line text none l = add_split engine line text l
or_tokens engine line text (some items) l =
    or_caught (add_line_items engine line items l) (add_split engine line text)

-- The bracket that opens an array.
abbrev pub is_bracketed : Option Text → Bool
is_bracketed none = false
is_bracketed (some _) = true

-- A line without its comment.
unfoldable pub before_hash : Text → Cut → Text
before_hash line none = line
before_hash line (some (before, after)) = trim before

unfoldable pub add_content : Engine → ℕ → Text → Listing → Run
unfolding or_tokens
add_content engine line text l =
    if length text == 0
    then went l
    else if is_bracketed (after_bracket text) && ends_with b']' text
    then or_tokens engine line text (strings_of (engine.parse_json text)) l
    else add_split engine line text l

-- A line that is empty or a comment has no content before its first `#`.
unfoldable pub add_line : Engine → ℕ → Text → Listing → Run
unfolding before_hash add_content
add_line engine line raw l =
    let text = trim raw in add_content engine line (before_hash text (cut_first b'#' text)) l

unfoldable pub add_lines : Engine → ℕ → List Text → Listing → Run
unfolding add_line
add_lines engine line [] l = went l
add_lines engine line (raw ∷ raws) l =
    add_line engine line raw l then add_lines engine (suc line) raws

unfoldable pub or_lines : Engine → Text → Option (List Text) → Listing → Run
unfolding add_items add_lines
or_lines engine raw none l = add_lines engine 1 (split 10 raw) l
or_lines engine raw (some items) l =
    or_caught (add_items engine 1 items l) (add_lines engine 1 (split 10 raw))

abbrev pub empty_listing : Listing
empty_listing = record { entries = []; errors = []; seen = [] }

unfoldable pub parse_proxy_list : Engine → Text → Run
unfolding or_lines
parse_proxy_list engine raw =
    let trimmed = trim raw in
    if is_bracketed (after_bracket trimmed)
    then or_lines engine raw (strings_of (engine.parse_json trimmed)) empty_listing
    else or_lines engine raw none empty_listing
