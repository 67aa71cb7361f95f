-- ===== src/Tools.antt =====
-- internal/adapters/tools: what the tool handlers share.
pub mod Path
pub mod Insert
pub mod Edit
pub mod Undo
pub mod Undone
