-- ===== src/Snapshot.antt =====
-- control-plane/lib/snapshots.ts: the configuration that the control plane publishes to gateways.
pub mod Fallbacks
pub mod Chains
pub mod Accepted
pub mod Tables
pub mod Settings
pub mod Compile
pub mod Closed
mod Tests
