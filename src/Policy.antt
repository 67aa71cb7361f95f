-- ===== src/Policy.antt =====
-- internal/adapters/policy/static_policy.go: the engine that authorises tool invocations.
pub mod Decision
pub mod Roles
pub mod Fields
pub mod Patterns
pub mod Arguments
pub mod Allowlists
pub mod Profiles
pub mod Authorize
pub mod Combine
pub mod Guards
pub mod Denials
pub mod Specialists
pub mod Confinement
pub mod Governance
pub mod Subjects
pub mod Keys
pub mod Values
