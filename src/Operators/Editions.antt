-- ===== src/Operators/Editions.antt =====
-- control-plane/lib/edition.ts: signed licenses, and the edition that they or the environment give,
-- kept until the license file changes.
use papi.Common.{
  ℕ, ◌/◌, List, [], ◌∷◌, ◌++◌, Option, none, some, Bool, true, false, not, ◌&&◌, if◌then◌else◌,
  ◌==◌, length, map,
}
use papi.Common.Number.{Number, nan, num as amount, ◌<=◌, less}
use papi.Common.Text.{Text, codes, same, member, to_lower, trim}
use papi.Common.Cut.{cut_first, cut_last}
use papi.Common.Json.{Json, null, bool, num, str, arr, obj, Items, nil, cons, truthy, member_of}
use papi.Common.Result.{Result, ok, err, plain, api, ◌>>=◌, ◌>>◌, guard, or_throw}
use papi.Operators.Tokens.{Engine, is_text}

pub data Edition : Type 0 where
  oss cloud ent : Edition

abbrev pub known_features : List Text
known_features =
    codes "sso"
    ∷ codes "orgs"
    ∷ codes "audit_export"
    ∷ codes "secrets"
    ∷ codes "ipacl"
    ∷ codes "guardrails"
    ∷ codes "multiregion"
    ∷ codes "branding"
    ∷ codes "cc_gateway"
    ∷ []

pub record Resolved : Type 0 where
  pub edition : Edition
  pub features : List Text

abbrev pub nothing : Resolved
nothing = record { edition = oss; features = [] }

-- What node:crypto does with an Ed25519 key and a signature: the bytes of a hexadecimal text and of
-- a base64url text, whether a key can be made of the bytes, and the check, `none` where it throws.
pub record Signatures : Type 0 where
  pub from_hex : Text → List ℕ
  pub from_base64url : Text → List ℕ
  pub is_key : List ℕ → Bool
  pub verify : (key : List ℕ) → (message : Text) → (sig : List ℕ) → Option Bool

unfoldable pub public_key_from_hex : Signatures → Text → Option (List ℕ)
public_key_from_hex sigs hex =
    let raw = sigs.from_hex (trim hex) in
    if length raw == 32 && sigs.is_key raw then some raw else none

-- `prefix:payload.signature`, where none of the three is empty. The last dot stands behind the first
-- colon.
pub record Parts : Type 0 where
  pub prefix : Text
  pub payload : Text
  pub sig : Text

abbrev pub filled : Text → Bool
filled s = not (length s == 0)

unfoldable pub parts_after : Text → Option (Text × Text) → Option Parts
parts_after prefix none = none
parts_after prefix (some (payload, sig)) =
    if filled prefix && filled payload && filled sig
    then some (record { prefix = prefix; payload = payload; sig = sig })
    else none

unfoldable pub parts_from : Option (Text × Text) → Option Parts
unfolding parts_after
parts_from none = none
parts_from (some (prefix, rest)) = parts_after prefix (cut_last b'.' rest)

unfoldable pub license_parts : Text → Option Parts
unfolding parts_from
license_parts s = parts_from (cut_first b':' s)

unfoldable pub edition_of : Text → Option Edition
edition_of s =
    if same s (codes "cloud") then some cloud else if same s (codes "ent") then some ent else none

-- `Number(value)` of a value that is compared.
unfoldable pub as_number : Engine → Option Json → Number
as_number engine none = nan
as_number engine (some null) = amount 0
as_number engine (some (bool b)) = amount (if b then 1 else 0)
as_number engine (some (num n)) = amount n
as_number engine (some (str s)) = engine.number s
as_number engine (some (arr xs)) = engine.number (engine.shown (arr xs))
as_number engine (some (obj fs)) = engine.number (engine.shown (obj fs))

abbrev is_above_zero : Number → Bool
is_above_zero n = less (amount 0) n

-- `payload.exp && payload.exp > 0 && unix >= payload.exp`, and the same of `nbf`.
unfoldable pub is_expired : Engine → ℕ → Option Json → Bool
unfolding as_number
is_expired engine unix exp =
    truthy exp && is_above_zero (as_number engine exp) && as_number engine exp <= amount unix

unfoldable pub is_early : Engine → ℕ → Option Json → Bool
unfolding as_number
is_early engine unix nbf =
    truthy nbf && is_above_zero (as_number engine nbf) && less (amount unix) (as_number engine nbf)

-- `for (const f of features) if (!KNOWN_FEATURES.has(f)) throw …`
unfoldable pub known_items : Items → Result (List Text)
known_items nil = ok []
known_items (cons (str f) xs) = do
  guard (member f known_features) (plain "unknown feature")
  rest ← known_items xs
  ok (f ∷ rest)
known_items (cons _ xs) = err (plain "unknown feature")

-- `payload.f ?? []`. An empty text has no characters to go through; another text has characters,
-- which are no features, and other values cannot be gone through.
unfoldable pub features_of : Option Json → Result (List Text)
unfolding known_items
features_of none = ok []
features_of (some null) = ok []
features_of (some (arr xs)) = known_items xs
features_of (some (str [])) = ok []
features_of (some _) = err (plain "unknown feature")

-- What is signed: `${prefix}.${b64payload}`.
abbrev pub message_of : Parts → Text
message_of p = p.prefix ++ b'.' ∷ p.payload

unfoldable pub is_true : Option Bool → Bool
is_true (some b) = b
is_true none = false

unfoldable pub signed : Signatures → List ℕ → Parts → Bool
unfolding is_true
signed sigs key p = is_true (sigs.verify key (message_of p) (sigs.from_base64url p.sig))

unfoldable pub validate_license : Engine → Signatures → Text → Text → (now : ℕ) → Result Resolved
unfolding license_parts edition_of public_key_from_hex signed features_of is_expired is_early
    is_text
validate_license engine sigs text pubkey_hex now = do
  p ← or_throw (license_parts (trim text)) (plain "bad license format")
  edition ← or_throw (edition_of p.prefix) (plain "bad license prefix")
  key ← or_throw (public_key_from_hex sigs pubkey_hex) (plain "no trusted public key configured")
  guard (signed sigs key p) (plain "bad license signature or payload")
  payload ←
      or_throw (engine.parse (engine.decode p.payload)) (plain "bad license signature or payload")
  guard (is_text (member_of (codes "ed") (some payload)) p.prefix) (plain "edition mismatch")
  features ← features_of (member_of (codes "f") (some payload))
  guard (not (is_expired engine (now / 1000) (member_of (codes "exp") (some payload))))
      (plain "license expired")
  guard (not (is_early engine (now / 1000) (member_of (codes "nbf") (some payload))))
      (plain "license not valid yet")
  ok (record { edition = edition; features = features })

-- `cache` of the module.
pub record Cached : Type 0 where
  pub modified : ℕ
  pub resolved : Resolved

-- The process at a moment: its environment, the license file's time of modification, if there is a
-- file, its text, if that can be read, and the clock.
pub record Moment : Type 0 where
  pub edition_env : Option Text
  pub pubkey_env : Option Text
  pub modified : Option ℕ
  pub text : Option Text
  pub now : ℕ

abbrev pub text_or_empty : Option Text → Text
text_or_empty none = []
text_or_empty (some s) = s

-- `catch { resolved = { edition: 'oss', features: new Set() } }`
unfoldable pub or_nothing : Result Resolved → Resolved
or_nothing (ok r) = r
or_nothing (err e) = nothing

unfoldable pub read_license : Engine → Signatures → Moment → Resolved
unfolding or_nothing
read_license engine sigs m = or_nothing (
    or_throw m.text (plain "ENOENT") >>= λ text.
    validate_license engine sigs text (text_or_empty m.pubkey_env) m.now)

unfoldable pub is_fresh : ℕ → Option Cached → Bool
is_fresh modified none = false
is_fresh modified (some c) = c.modified == modified

resolved_in : Option Cached → Resolved
resolved_in none = nothing
resolved_in (some c) = c.resolved

unfoldable pub resolve_file :
    Engine → Signatures → Moment → Option ℕ → Option Cached → Resolved × Option Cached
unfolding is_fresh resolved_in
resolve_file engine sigs m none cache = (nothing, cache)
resolve_file engine sigs m (some modified) cache =
    let read = read_license engine sigs m in
    if is_fresh modified cache
    then (resolved_in cache, cache)
    else (read, some (record { modified = modified; resolved = read }))

-- The edition that the environment names, with every feature if it is a hosted one.
unfoldable pub overridden : Option Edition → Resolved
overridden none = nothing
overridden (some edition) = record { edition = edition; features = known_features }

unfoldable pub env_edition : Moment → Text
env_edition m = trim (map to_lower (text_or_empty m.edition_env))

unfoldable pub resolve : Engine → Signatures → Moment → Option Cached → Resolved × Option Cached
resolve engine sigs m cache =
    if length (env_edition m) == 0
    then resolve_file engine sigs m m.modified cache
    else (overridden (edition_of (env_edition m)), cache)

unfoldable pub has_feature : Resolved → Text → Bool
has_feature r feature = member feature r.features

unfoldable pub require_feature : Resolved → Text → Result (Unit {0})
unfolding has_feature
require_feature r feature = guard (has_feature r feature) (api 403 "feature_not_licensed")

unfoldable pub is_hosted : Edition → Bool
is_hosted oss = false
is_hosted cloud = true
is_hosted ent = true

unfoldable pub require_hosted : Resolved → Result (Unit {0})
unfolding is_hosted
require_hosted r = guard (is_hosted r.edition) (api 403 "hosted_only")

unfoldable pub reset_edition_cache_for_tests : Option Cached → Option Cached
reset_edition_cache_for_tests cache = none
