-- ===== src/Accounts.antt =====
-- Self-serve accounts (control-plane/lib/cloud-auth.ts) and sessions (control-plane/lib/auth.ts).
pub mod Directory
pub mod Sessions
pub mod Signup
pub mod Access
pub mod Verification
mod Tests
