-- ===== src/Workspace.antt =====
-- internal/adapters/workspace
pub mod Local
pub mod Sessions
