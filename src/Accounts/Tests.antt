-- ===== src/Accounts/Tests.antt =====
-- Runs of the account handlers on a concrete user.
use papi.Common.{◌≡◌, refl, String, [], ◌∷◌, some, Bool, true, false, str_eq}
use papi.Common.Int.{pos}
use papi.Common.Number.{num}
use papi.Common.Result.{ok, err, api}
use papi.Billing.Tables.{Ledger}
use papi.Accounts.Directory.{User, Directory}
use papi.Accounts.Sessions.{
  Login, login_core, logout_core, resolve_session, resolve_hash, session_user, authenticated,
  create_session,
}
use papi.Accounts.Signup.{
  Signup, Made, sign_up, signup_core, token_user, bonus_credit, insert_bonus, insert_default,
  provision, verify_user, verify_core,
}
use papi.Accounts.Verification.{verify_core-once}

abbrev hash : String → String
hash s = s

abbrev accepts : String → String → Bool
accepts password stored = str_eq password stored

abbrev ada : Bool → User
ada verified = record {
  id = "ada";
  email = "ada@example.com";
  password_hash = "correct horse";
  platform_role = "user";
  disabled = false;
  email_verified = verified;
}

abbrev no_ledger : Ledger
no_ledger = record {
  events = [];
  next_id = 1;
  attempts = [];
  spend = [];
  keys = [];
  teams = [];
  credits = [];
  audits = [];
}

abbrev directory : Bool → Directory
directory verified = record {
  users = ada verified ∷ [];
  tokens = record { user_id = "ada"; token_hash = "token"; expires_at = 5000 } ∷ [];
  sessions = [];
  members = [];
  ledger = no_ledger;
}

abbrev login : Login
login = record { email = "ada@example.com"; password = "correct horse" }

abbrev signed_in : Directory
signed_in = record (directory true) {
  sessions = record { user_id = "ada"; token_hash = "cookie"; expires_at = 604801000 } ∷ [];
}

logs_in :
    login_core hash accepts true true (ok login) (num 7) "cookie" 1000 (directory true)
    ≡ ok (ada true, signed_in)
unfolding login_core authenticated create_session
logs_in = refl

resolves : resolve_session hash (some "cookie") 2000 signed_in ≡ (some (ada true), signed_in)
unfolding resolve_session resolve_hash session_user
resolves = refl

logs_out : logout_core hash true (some "cookie") signed_in ≡ ok (directory true)
unfolding logout_core
logs_out = refl

abbrev made : Made
made = record { user_id = "bob"; token = "other"; team_id = "team"; key_id = "key" }

abbrev signup : Signup
signup = record { email = "ada@example.com"; password = "battery staple" }

signs_up :
    signup_core hash hash true true (ok signup) made 24 9000000 (directory false)
    ≡ ok (directory false)
unfolding signup_core sign_up
signs_up = refl

abbrev verified : Directory
verified = record {
  users = ada true ∷ [];
  tokens = [];
  sessions = [];
  members = record { team_id = "team"; user_id = "ada"; role = "owner" } ∷ [];
  ledger = record no_ledger {
    teams = record { id = "team"; balance_usd = pos 1000000 } ∷ [];
    credits = bonus_credit "team" "ada" 1000000 ∷ [];
    keys = record { id = "key"; name = "default"; team_id = some "team" } ∷ [];
  };
}

verifies :
    verify_core hash true true (ok "token") made 1000000 4000 (directory false)
    ≡ ok (false, verified)
unfolding verify_core token_user verify_user provision insert_bonus insert_default
verifies = refl

verify_core-once_example :
    verify_core hash true true (ok "token") made 1000000 4500 verified
    ≡ err (api 400 "invalid_verification_token")
unfolding token_user
verify_core-once_example =
    verify_core-once hash "token" made made 1000000 1000000 4000 4500 (directory false) false
      verified (ada false) refl refl verifies

pays : insert_bonus "team" "ada" 1000000 [] ≡ ok (bonus_credit "team" "ada" 1000000 ∷ [])
unfolding insert_bonus
pays = refl
