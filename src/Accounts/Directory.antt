-- ===== src/Accounts/Directory.antt =====
-- The tables of the self-serve accounts, with the columns that control-plane/lib/cloud-auth.ts and
-- control-plane/lib/auth.ts read or write. E-mail addresses are stored in lower case.
use papi.Common.{ℕ, String, List, Bool}
use papi.Billing.Tables.{Ledger}

pub record User : Type 0 where
  pub id : String
  pub email : String
  pub password_hash : String
  pub platform_role : String
  pub disabled : Bool
  pub email_verified : Bool

-- A row of email_verification_tokens.
pub record VerificationToken : Type 0 where
  pub user_id : String
  pub token_hash : String
  pub expires_at : ℕ

-- A row of user_sessions.
pub record Session : Type 0 where
  pub user_id : String
  pub token_hash : String
  pub expires_at : ℕ

-- A row of team_members.
pub record Member : Type 0 where
  pub team_id : String
  pub user_id : String
  pub role : String

-- The teams, the credits and the keys stand in the ledger.
pub record Directory : Type 0 where
  pub users : List User
  pub tokens : List VerificationToken
  pub sessions : List Session
  pub members : List Member
  pub ledger : Ledger
