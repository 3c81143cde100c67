-- ===== src/Reset.antt =====
-- control-plane/lib/codex/quota.ts: resetting a Codex account's quota, which spends a credit that
-- the provider does not give back, and reading its quota.
pub mod Table
pub mod Checks
pub mod Actions
pub mod Flow
pub mod Refresh
pub mod Evolution
pub mod Rows
pub mod Steps
pub mod Counts
pub mod Shapes
pub mod Invariant
pub mod Replay
pub mod Asked
pub mod Once
pub mod Outcomes
mod Tests
