-- ===== src/Storage.antt =====
-- internal/adapters/storage and internal/adapters/invocationstore
pub mod Artifacts
pub mod Names
pub mod Records
pub mod Reload
pub mod Series
pub mod Loads
