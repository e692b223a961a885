-- ===== src/Registry.antt =====
-- The module internal/module/registry: schemas of events, published for contracts.
pub mod Validate
pub mod Bundles
pub mod Contracts
pub mod Verify
