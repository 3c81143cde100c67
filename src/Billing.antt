-- ===== src/Billing.antt =====
-- The prepaid balances: the usage that gateways report (control-plane/lib/request-events.ts), the
-- Paddle payments (control-plane/lib/webhooks.ts) and the nightly reconciliation
-- (control-plane/lib/balance.ts), over the tables that they share.
pub mod Tables
pub mod Events
pub mod Inserts
pub mod Retry
pub mod Spending
pub mod Credits
pub mod Reconcile
pub mod Payments
pub mod Balances
pub mod Nightly
mod Tests
