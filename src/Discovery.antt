-- ===== src/Discovery.antt =====
-- control-plane/lib/codex/operations.ts: the models that the providers' accounts offer, asked for,
-- read and stored. The aliases that are made of them are in Routes.
pub mod Secrets
pub mod Metadata
pub mod Workers
pub mod Catalog
pub mod Persisted
pub mod Grouped
mod Tests
