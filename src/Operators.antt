-- ===== src/Operators.antt =====
-- Who may change the configuration: the editions and the gates of control-plane/lib/edition.ts, and
-- the bearer tokens of control-plane/lib/jwt.ts, which tokenCore of control-plane/lib/cloud-auth.ts
-- hands out.
pub mod Tokens
pub mod Editions
pub mod Gate
pub mod Minted
pub mod Admitted
pub mod Opened
pub mod Written
pub mod Licensed
pub mod Kept
pub mod Lasting
mod Tests
