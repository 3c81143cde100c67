-- ===== src/Accounts/Signup.antt =====
-- signupCore, issueVerificationToken and verifyCore of control-plane/lib/cloud-auth.ts. The numbers of
-- new rows, made-up tokens and the hash of a password are arguments; the guards by edition and rate
-- are given as the test's outcome. The bonus is in millionths of a dollar.
use papi.Common.{
  ℕ, ◌+◌, ◌*◌, String, List, [], ◌∷◌, ◌++◌, Option, none, some, Bool, true, false, not, ◌&&◌,
  if◌then◌else◌, ltb, leb, str_eq, select, any, find, update_where,
}
use papi.Common.Int.{pos}
use papi.Common.Result.{Result, ok, api, plain, ◌>>=◌, ◌>>◌, guard, or_throw}
use papi.Billing.Tables.{Credit, VirtualKey}
use papi.Accounts.Directory.{User, VerificationToken, Directory}

-- The body that SignupSchema reads.
pub record Signup : Type 0 where
  pub email : String
  pub password : String

unfoldable pub issue_verification_token :
    (String → String) → String → String → ℕ → ℕ → Directory → Directory
issue_verification_token hash_token user token ttl_hours now d = record d {
  tokens =
      select (λ t. not (str_eq t.user_id user)) d.tokens
      ++ record {
        user_id = user;
        token_hash = hash_token token;
        expires_at = now + ttl_hours * 3600000;
      }
        ∷ [];
}

abbrev pub new_user : String → String → String → User
new_user id email password_hash = record {
  id = id;
  email = email;
  password_hash = password_hash;
  platform_role = "user";
  disabled = false;
  email_verified = false;
}

-- What the request makes up.
pub record Made : Type 0 where
  pub user_id : String
  pub token : String
  pub team_id : String
  pub key_id : String

unfoldable pub sign_up :
    (String → String) → (String → String) → Signup → Made → ℕ → ℕ → Directory → Directory
unfolding issue_verification_token
sign_up hash_token hash_password body made ttl_hours now d =
    if any (λ u. str_eq u.email body.email) d.users
    then d
    else issue_verification_token hash_token made.user_id made.token ttl_hours now (record d {
      users = d.users ++ new_user made.user_id body.email (hash_password body.password) ∷ [];
    })

unfoldable pub signup_core :
    (String → String)
    → (String → String)
    → Bool
    → Bool
    → Result Signup
    → Made
    → ℕ
    → ℕ
    → Directory
    → Result Directory
unfolding sign_up
signup_core hash_token hash_password hosted passes body made ttl_hours now d = do
  guard hosted (api 403 "hosted_only")
  guard passes (api 429 "rate_limited")
  signup ← body
  ok (sign_up hash_token hash_password signup made ttl_hours now d)

abbrev pub is_open : String → ℕ → VerificationToken → Bool
is_open hash now t = str_eq t.token_hash hash && leb now t.expires_at

-- The user of the first token with the hash that has not expired.
unfoldable pub token_user : String → ℕ → List User → List VerificationToken → Option User
token_user hash now users [] = none
token_user hash now users (t ∷ tokens) =
    let rest = token_user hash now users tokens in
    if is_open hash now t
    then (elim (find (λ u. str_eq u.id t.user_id) users) [ some u ↦ some u | none ↦ rest ])
    else rest

abbrev pub drop_tokens : String → Directory → Directory
drop_tokens user d = record d { tokens = select (λ t. not (str_eq t.user_id user)) d.tokens }

-- `UNIQUE (source, external_id)` for the signup bonus of a user.
abbrev pub has_bonus : String → Credit → Bool
has_bonus user c =
    not (str_eq user "") && str_eq c.source "signup_bonus" && str_eq c.external_id user

abbrev pub bonus_credit : String → String → ℕ → Credit
bonus_credit team user bonus = record {
  team_id = team;
  delta_usd = pos bonus;
  kind = "bonus";
  source = "signup_bonus";
  external_id = user;
}

unfoldable pub insert_bonus : String → String → ℕ → List Credit → Result (List Credit)
insert_bonus team user bonus credits = if not (ltb 0 bonus) then ok credits else do
  guard (not (any (has_bonus user) credits)) (plain "credit_tx_source_external_uq")
  ok (credits ++ bonus_credit team user bonus ∷ [])

-- `UNIQUE` of virtual_keys.name, for the key of a verification.
unfoldable pub insert_default : List VirtualKey → Result (Unit {0})
insert_default keys =
    guard (not (any (λ k. str_eq k.name "default") keys)) (plain "virtual_keys_name_key")

-- The transaction of a verification. Names of teams, which are unique as well, are left out.
unfoldable pub provision : User → Made → ℕ → Directory → Result Directory
unfolding insert_bonus insert_default
provision user made bonus d = do
  credits ← insert_bonus made.team_id user.id bonus d.ledger.credits
  insert_default d.ledger.keys
  ok (record d {
    users =
        update_where (λ u. str_eq u.id user.id) (λ u. record u { email_verified = true }) d.users;
    tokens = select (λ t. not (str_eq t.user_id user.id)) d.tokens;
    members =
        d.members ++ record { team_id = made.team_id; user_id = user.id; role = "owner" } ∷ [];
    ledger = record d.ledger {
      teams = d.ledger.teams ++ record { id = made.team_id; balance_usd = pos bonus } ∷ [];
      credits = credits;
      keys =
          d.ledger.keys
          ++ record { id = made.key_id; name = "default"; team_id = some made.team_id } ∷ [];
    };
  })

-- What the verification answers: whether the address was verified before.
unfoldable pub verify_user : User → Made → ℕ → Directory → Result (Bool × Directory)
unfolding provision
verify_user user made bonus d =
    if user.email_verified
    then ok (true, drop_tokens user.id d)
    else do next ← provision user made bonus d; ok (false, next)

unfoldable pub verify_core :
    (String → String)
    → Bool
    → Bool
    → Result String
    → Made
    → ℕ
    → ℕ
    → Directory
    → Result (Bool × Directory)
unfolding token_user verify_user
verify_core hash_token hosted passes body made bonus now d = do
  guard hosted (api 403 "hosted_only")
  guard passes (api 429 "rate_limited")
  token ← body
  user ←
      or_throw (token_user (hash_token token) now d.users d.tokens)
        (api 400 "invalid_verification_token")
  verify_user user made bonus d
