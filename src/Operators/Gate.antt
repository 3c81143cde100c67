-- ===== src/Operators/Gate.antt =====
-- requireOperator of control-plane/lib/edition.ts, which guards what changes the configuration, and
-- tokenCore of control-plane/lib/cloud-auth.ts, which hands a bearer token to an operator.
use papi.Common.{
  ℕ, String, [], ◌∷◌, ◌++◌, Option, none, some, Bool, false, if◌then◌else◌, ltb, ◌==◌, drop, str_eq,
}
use papi.Common.Number.{Number, nan, num as amount}
use papi.Common.Text.{Text, codes, starts_with, trim_start}
use papi.Common.Json.{Json, str, Fields, get}
use papi.Common.Result.{Result, ok, err, api, ◌>>=◌, ◌>>◌, guard, or_throw}
use papi.Accounts.Directory.{User, Directory}
use papi.Accounts.Sessions.{resolve_session}
use papi.Operators.Tokens.{Engine, sign_jwt, is_text, verify_jwt, bearer_from, or_null}
use papi.Operators.Editions.{Edition, oss, cloud, ent, Resolved, require_hosted}

-- The two headers that the gates read.
pub record Request : Type 0 where
  pub authorization : Option Text
  pub cookie : Option Text

-- `[^;]+`, from the start of a text.
until_semicolon : Text → Text
until_semicolon [] = []
until_semicolon (c ∷ s) = let rest = until_semicolon s in if c == b';' then [] else c ∷ rest

value_at : Text → Option Text
unfolding until_semicolon
value_at s =
    if starts_with s (codes "papi_session=") then or_null (until_semicolon (drop 13 s)) else none

first_of : Option Text → Option Text → Option Text
first_of none other = other
first_of (some s) other = some s

-- `;\s*papi_session=([^;]+)` at the first place where it fits.
after_semicolon : Text → Option Text
unfolding value_at first_of
after_semicolon [] = none
after_semicolon (c ∷ s) =
    let rest = after_semicolon s in
    if c == b';' then first_of (value_at (trim_start s)) rest else rest

-- `match(/(?:^|;\s*)papi_session=([^;]+)/)?.[1]`
unfoldable pub session_cookie : Option Text → Option Text
unfolding after_semicolon
session_cookie none = none
session_cookie (some s) = first_of (value_at s) (after_semicolon s)

-- What the gates take from outside: the engine, the master key, the hash of a session's token, a text
-- as the string that is hashed, and the clock.
pub record Outside : Type 0 where
  pub engine : Engine
  pub master_key : Text
  pub hash_token : String → String
  pub written : Text → String
  pub now : ℕ

-- Who passes. The subject of a token stands as it was read.
pub record Operator : Type 0 where
  pub id : Json
  pub email : Text

abbrev local : Operator
local = record { id = str (codes "local"); email = codes "local@oss" }

unfoldable pub subject_of : Option Json → Json
subject_of none = Json.null
subject_of (some j) = j

-- `${sub}`
shown_subject : Engine → Json → Text
shown_subject engine (str s) = s
shown_subject engine j = engine.shown j

unfoldable pub from_claims : Engine → Json → Operator
unfolding shown_subject
from_claims engine sub = record { id = sub; email = codes "operator:" ++ shown_subject engine sub }

unfoldable pub is_operator_claim : Option Fields → Bool
is_operator_claim none = false
is_operator_claim (some fs) = is_text (get (codes "role") fs) (codes "operator")

unfoldable pub claimed : Engine → Option Fields → Result Operator
unfolding subject_of
claimed engine none = err (api 401 "operator_session_required")
claimed engine (some fs) = ok (from_claims engine (subject_of (get (codes "sub") fs)))

unfoldable pub operator_by_token : Outside → Text → Result Operator
unfolding is_operator_claim
operator_by_token o bearer = do
  claims ← verify_jwt o.engine bearer o.master_key o.now
  guard (is_operator_claim claims) (api 401 "operator_session_required")
  claimed o.engine claims

unfoldable pub resolve_cookie : Outside → Option Text → Directory → Option User × Directory
resolve_cookie o none d = resolve_session o.hash_token none o.now d
resolve_cookie o (some s) d = resolve_session o.hash_token (some (o.written s)) o.now d

-- `resolveSession(db, token)` for the cookie of a request.
unfoldable pub signed_in : Outside → Request → Directory → Option User × Directory
signed_in o req d = resolve_cookie o (session_cookie req.cookie) d

unfoldable pub from_user : User → Operator
from_user u = record { id = str (codes u.id); email = codes u.email }

unfoldable pub operator_by_session : Option User → Result Operator
unfolding from_user
operator_by_session user = do
  u ← or_throw user (api 401 "operator_session_required")
  guard (str_eq u.platform_role "operator") (api 403 "operator_required")
  ok (from_user u)

unfoldable pub gate_hosted :
    Outside → Request → Option Text → Directory → Result Operator × Directory
unfolding operator_by_token operator_by_session
gate_hosted o req (some bearer) d = (operator_by_token o bearer, d)
gate_hosted o req none d =
    let (user, swept) = signed_in o req d in (operator_by_session user, swept)

-- A session that is over is deleted also where the request is refused.
unfoldable pub require_operator :
    Outside → Edition → Request → Directory → Result Operator × Directory
unfolding gate_hosted
require_operator o oss req d = (ok local, d)
require_operator o cloud req d = gate_hosted o req (bearer_from req.authorization) d
require_operator o ent req d = gate_hosted o req (bearer_from req.authorization) d

-- `Number.isFinite(ttl) && ttl > 0 ? ttl : 3600`
unfoldable pub token_ttl : Number → ℕ
token_ttl nan = 3600
token_ttl (amount n) = if ltb 0 n then n else 3600

unfoldable pub mint : Outside → Number → Option User → Result (Text × ℕ)
unfolding token_ttl
mint o ttl user = do
  u ← or_throw user (api 401 "unauthorized")
  guard (str_eq u.platform_role "operator") (api 403 "operator_required")
  ok (
    sign_jwt o.engine (codes u.id) (codes "operator") o.master_key (token_ttl ttl) o.now,
    token_ttl ttl,
  )

-- The token and the seconds for which it is said to hold.
unfoldable pub token_core :
    Outside → Resolved → Number → Request → Directory → Result (Text × ℕ) × Directory
unfolding mint signed_in require_hosted
token_core o resolved ttl req d = elim (require_hosted resolved) [
  | err thrown ↦ (err thrown, d)
  | ok _ ↦ (mint o ttl (signed_in o req d).0, (signed_in o req d).1)
]
