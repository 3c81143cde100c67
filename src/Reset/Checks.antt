-- ===== src/Reset/Checks.antt =====
-- The checks of control-plane/lib/codex/quota.ts on its inputs and on the provider's answers.
use papi.Common.{
  ℕ, String, List, [], ◌∷◌, Option, none, some, Bool, true, false, ◌&&◌, ◌||◌, not, if◌then◌else◌,
  ltb, leb, ◌==◌, length, all, any, includes,
}
use papi.Common.Number.{Number, less, is_finite, or_zero, ◌<=◌}
use papi.Common.Text.{Text, codes, is_digit}
use papi.Common.Json.{Json, str, obj, Fields, end, get, to_number}
use papi.Common.Result.{Result, ok, err, Thrown, api, guard}
use papi.Reset.Table.{Preflight}

-- `/[\x00-\x20\x7f]/`
abbrev pub is_blank : ℕ → Bool
is_blank c = leb c 0x20 || c == 0x7f

unfoldable pub validate_idempotency_key : Text → Result (Unit {0})
validate_idempotency_key key =
    guard (not (length key == 0 || ltb 128 (length key) || any is_blank key))
      (api 400 "idempotency_key_invalid")

-- The data of an answer as an object.
unfoldable pub object_data : Json → String → Result Fields
object_data (obj fs) code = ok fs
object_data value code = err (api 502 code)

unfoldable pub object_or_empty : Option Json → Fields
object_or_empty (some (obj fs)) = fs
object_or_empty value = end

-- `typeof x === 'string' ? Date.parse(x) : Number.POSITIVE_INFINITY`; `none` is the infinity.
unfoldable pub credit_expiry : (Text → Number) → Option Json → Option Number
credit_expiry date_parse (some (str s)) = some (date_parse s)
credit_expiry date_parse value = none

-- `!Number.isFinite(expiry) || expiry <= now`
unfoldable pub expiry_unusable : ℕ → Option Number → Bool
expiry_unusable now none = true
expiry_unusable now (some t) = not (is_finite t) || t <= Number.num now

-- The numbers of the JSON values are natural; a count that is a text, which `Number` would read, is
-- no number here.
unfoldable pub require_available_credit : (Text → Number) → ℕ → Fields → Result (Unit {0})
unfolding credit_expiry expiry_unusable
require_available_credit date_parse now credits =
    let available = to_number (get (codes "available_count") credits) in
    let expiry = credit_expiry date_parse (get (codes "next_expires_at") credits) in
    if not (is_finite available) || available <= Number.num 0 || expiry_unusable now expiry
    then err (api 409 "quota_reset_credit_unavailable")
    else ok tt

abbrev pub conclusive_codes : List String
conclusive_codes =
    "codex_reset_request_invalid" ∷ "codex_reset_credit_failed" ∷ "codex_quota_unsupported"
    ∷ "credential_revision_conflict" ∷ []

unfoldable pub conclusive_reset_failure : Thrown → Bool
conclusive_reset_failure (api status code) = includes conclusive_codes code && ltb status 500
conclusive_reset_failure _ = false

-- `[a-z0-9_]`
abbrev pub is_code_char : ℕ → Bool
is_code_char c = (leb b'a' c && leb c b'z') || is_digit c || c == b'_'

-- `/^[a-z0-9_]{1,128}$/`
unfoldable pub is_code : String → Bool
is_code s = all is_code_char (codes s) && leb 1 (length (codes s)) && leb (length (codes s)) 128

unfoldable pub safe_error_code : Thrown → String
safe_error_code (api status code) = if is_code code then code else "provider_operation_ambiguous"
safe_error_code _ = "provider_operation_ambiguous"

pub record Window : Type 0 where
  pub used : ℕ
  pub reset_at : ℕ

unfoldable pub primary_window : Fields → Window
unfolding object_or_empty
primary_window quota =
    let limit = object_or_empty (get (codes "rate_limit") quota) in
    let window = object_or_empty (get (codes "primary_window") limit) in
    record {
      used = or_zero (to_number (get (codes "used_percent") window));
      reset_at = or_zero (to_number (get (codes "reset_at") window));
    }

unfoldable pub reset_was_consumed : Preflight → Fields → Fields → Bool
unfolding primary_window
reset_was_consumed preflight quota credits =
    let before = to_number (get (codes "available_count") preflight.reset_credits) in
    let now = to_number (get (codes "available_count") credits) in
    let was = primary_window preflight.quota in
    let is = primary_window quota in
    if is_finite before && is_finite now && less now before
    then true
    else ltb 0 was.reset_at && ltb was.reset_at is.reset_at && ltb is.used was.used
