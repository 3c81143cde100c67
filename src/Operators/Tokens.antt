-- ===== src/Operators/Tokens.antt =====
-- control-plane/lib/jwt.ts: bearer tokens that are signed with HMAC-SHA256.
use papi.Common.{
  ℕ, ◌+◌, ◌/◌, List, [], ◌∷◌, ◌++◌, Option, none, some, Bool, true, false, not, ◌&&◌, if◌then◌else◌,
  max, drop, map,
}
use papi.Common.Number.{Number, nan, num as amount, ◌<=◌}
use papi.Common.Text.{Text, codes, same, split, starts_with, is_space, to_lower, trim}
use papi.Common.Cut.{print}
use papi.Common.Json.{
  Json, null, bool, num, str, arr, obj, Fields, end, field, get, truthy, member_of,
}
use papi.Common.Stringify.{stringify}
use papi.Common.Result.{Result, ok, err, plain, ◌>>=◌}

-- What the JavaScript engine and node:crypto do: base64url of a text's bytes and back, `JSON.parse`,
-- `Number`, `String` of an array or an object, and the base64url of the HMAC of an input.
pub record Engine : Type 0 where
  pub encode : Text → Text
  pub decode : Text → Text
  pub parse : Text → Option Json
  pub number : Text → Number
  pub shown : Json → Text
  pub mac : (secret : Text) → (input : Text) → Text

abbrev pub audience : Text
audience = codes "2papi-api"

abbrev pub header_json : Json
header_json =
    obj (field (codes "alg") (str (codes "HS256")) (field (codes "typ") (str (codes "JWT")) end))

-- `{ ...claims, aud: AUDIENCE, iat, exp }`, where the claims are the subject and the role.
abbrev pub payload_fields : Text → Text → ℕ → ℕ → Fields
payload_fields sub role iat exp = field (codes "sub") (str sub) (
    field (codes "role") (str role) (
      field (codes "aud") (str audience)
        (field (codes "iat") (num iat) (field (codes "exp") (num exp) end))))

-- `b64u`
unfoldable pub b64u : Engine → Json → Text
b64u engine value = engine.encode (stringify value)

unfoldable pub sign_jwt : Engine → Text → Text → Text → ℕ → ℕ → Text
unfolding b64u
sign_jwt engine sub role secret ttl_seconds now =
    let iat = now / 1000 in
    let payload = obj (payload_fields sub role iat (iat + max 1 ttl_seconds)) in
    let input = b64u engine header_json ++ b'.' ∷ b64u engine payload in
    input ++ b'.' ∷ engine.mac secret input

-- `o[key] === text`
unfoldable pub is_text : Option Json → Text → Bool
is_text (some (str s)) t = same s t
is_text _ t = false

unfoldable pub is_string : Option Json → Bool
is_string (some (str s)) = true
is_string _ = false

-- `value + skew`, read as a number: a text, an array and an object are joined with the digits.
unfoldable pub plus : Engine → ℕ → Option Json → Number
plus engine skew none = nan
plus engine skew (some null) = amount skew
plus engine skew (some (bool b)) = amount ((if b then 1 else 0) + skew)
plus engine skew (some (num n)) = amount (n + skew)
plus engine skew (some (str s)) = engine.number (s ++ print skew)
plus engine skew (some (arr xs)) = engine.number (engine.shown (arr xs) ++ print skew)
plus engine skew (some (obj fs)) = engine.number (engine.shown (obj fs) ++ print skew)

-- The claims pass when the negation of each `return null` holds.
unfoldable pub claims_pass : Engine → ℕ → Fields → Bool
unfolding is_text is_string plus
claims_pass engine now fs =
    truthy (get (codes "exp") fs)
    && not (plus engine 30 (get (codes "exp") fs) <= amount (now / 1000))
    && is_text (get (codes "aud") fs) audience
    && truthy (get (codes "sub") fs)
    && is_string (get (codes "role") fs)

-- The payload is read only after the signature is checked. A property of `null` cannot be read.
unfoldable pub read_claims : Engine → ℕ → Option Json → Result (Option Fields)
unfolding claims_pass
read_claims engine now (some null) = err (plain "TypeError")
read_claims engine now (some (obj fs)) = ok (if claims_pass engine now fs then some fs else none)
read_claims engine now _ = ok none

-- `header.alg !== 'HS256'` fails for every other value than an object with that property.
unfoldable pub is_hs256 : Option Json → Result Bool
unfolding is_text member_of
is_hs256 (some null) = err (plain "TypeError")
is_hs256 header = ok (is_text (member_of (codes "alg") header) (codes "HS256"))

unfoldable pub verify_parts : Engine → Text → ℕ → List Text → Result (Option Fields)
verify_parts engine secret now (header ∷ payload ∷ sig ∷ []) = do
  fits ← is_hs256 (engine.parse (engine.decode header))
  if fits && same sig (engine.mac secret (header ++ b'.' ∷ payload))
      then read_claims engine now (engine.parse (engine.decode payload))
      else ok none
verify_parts engine secret now _ = ok none

unfoldable pub verify_jwt : Engine → Text → Text → ℕ → Result (Option Fields)
unfolding verify_parts
verify_jwt engine token secret now = verify_parts engine secret now (split b'.' token)

-- `value || null`
unfoldable pub or_null : Text → Option Text
or_null [] = none
or_null (c ∷ s) = some (c ∷ s)

starts_with_space : Text → Bool
starts_with_space [] = false
starts_with_space (c ∷ s) = is_space c

-- `/^Bearer\s+/i`
unfoldable pub has_bearer : Text → Bool
unfolding starts_with_space
has_bearer s = starts_with (map to_lower s) (codes "bearer") && starts_with_space (drop 6 s)

unfoldable pub bearer_from : Option Text → Option Text
unfolding has_bearer or_null
bearer_from none = none
bearer_from (some h) = if has_bearer h then or_null (trim (drop 6 h)) else none
