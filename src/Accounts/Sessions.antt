-- ===== src/Accounts/Sessions.antt =====
-- Sessions (createSession and resolveSession of control-plane/lib/auth.ts) and the handlers that
-- open and close them (loginCore and logoutCore of control-plane/lib/cloud-auth.ts). The hash of a
-- token and the check of a password are arguments, a made-up token is one too, and the guards by
-- edition and rate are given as the test's outcome. Times are milliseconds.
use papi.Common.{
  ℕ, ◌+◌, ◌*◌, String, List, [], ◌∷◌, ◌++◌, Option, none, some, Bool, not, ◌&&◌, if◌then◌else◌, ltb,
  leb, str_eq, select, any, find,
}
use papi.Common.Result.{Result, ok, api, ◌>>=◌, ◌>>◌, guard, or_throw}
use papi.Common.Number.{Number, nan, num}
use papi.Accounts.Directory.{User, Session, Directory}

-- `Number.isFinite(ttlDays) && ttlDays > 0 ? ttlDays : DEFAULT_TTL_DAYS`
abbrev pub ttl_of : Number → ℕ
ttl_of nan = 7
ttl_of (num days) = if ltb 0 days then days else 7

unfoldable pub create_session :
    (String → String) → String → Number → String → ℕ → Directory → Directory
create_session hash_token user ttl_days token now d = record d {
  sessions =
      d.sessions
      ++ record {
        user_id = user;
        token_hash = hash_token token;
        expires_at = now + ttl_of ttl_days * 86400000;
      }
        ∷ [];
}

-- `expires_at < now() AND token_hash = $1`
abbrev pub is_over : ℕ → String → Session → Bool
is_over now hash s = ltb s.expires_at now && str_eq s.token_hash hash

abbrev pub is_live : ℕ → String → Session → Bool
is_live now hash s = str_eq s.token_hash hash && leb now s.expires_at

abbrev pub is_user : String → User → Bool
is_user id u = str_eq u.id id && not u.disabled

-- The first live session with the hash whose user exists and is not disabled.
unfoldable pub session_user : ℕ → String → List User → List Session → Option User
session_user now hash users [] = none
session_user now hash users (s ∷ sessions) =
    let rest = session_user now hash users sessions in
    if is_live now hash s
    then (elim (find (is_user s.user_id) users) [ some u ↦ some u | none ↦ rest ])
    else rest

abbrev pub given : Option String → Option String
given none = none
given (some s) = if str_eq s "" then none else some s

unfoldable pub resolve_hash : String → ℕ → Directory → Option User × Directory
unfolding session_user
resolve_hash hash now d =
    let swept = record d { sessions = select (λ s. not (is_over now hash s)) d.sessions } in
    if any (is_over now hash) d.sessions
    then (none, swept)
    else (session_user now hash d.users swept.sessions, swept)

unfoldable pub resolve_session :
    (String → String) → Option String → ℕ → Directory → Option User × Directory
unfolding resolve_hash
resolve_session hash_token token now d = elim (given token) [
  | none ↦ (none, d)
  | some t ↦ resolve_hash (hash_token t) now d
]

-- The body that LoginSchema reads.
pub record Login : Type 0 where
  pub email : String
  pub password : String

-- `!user || !verifyPassword(body.password, user.password_hash)`
unfoldable pub authenticated : (String → String → Bool) → Login → List User → Option User
authenticated verify_password body users = elim (find (λ u. str_eq u.email body.email) users) [
  | none ↦ none
  | some u ↦ if verify_password body.password u.password_hash then some u else none
]

unfoldable pub login_core :
    (String → String)
    → (String → String → Bool)
    → Bool
    → Bool
    → Result Login
    → Number
    → String
    → ℕ
    → Directory
    → Result (User × Directory)
unfolding authenticated create_session
login_core hash_token verify_password hosted passes body ttl_days token now d = do
  guard hosted (api 403 "hosted_only")
  guard passes (api 429 "rate_limited")
  login ← body
  user ← or_throw (authenticated verify_password login d.users) (api 401 "invalid_credentials")
  guard (not user.disabled) (api 403 "account_disabled")
  guard user.email_verified (api 403 "email_unverified")
  ok (user, create_session hash_token user.id ttl_days token now d)

unfoldable pub logout_core : (String → String) → Bool → Option String → Directory → Result Directory
logout_core hash_token hosted token d = do
  guard hosted (api 403 "hosted_only")
  ok (elim token [
    | none ↦ d
    | some t ↦ if str_eq t "" then d else record d {
      sessions = select (λ s. not (str_eq s.token_hash (hash_token t))) d.sessions;
    }
  ])
