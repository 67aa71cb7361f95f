-- ===== src/Examples.antt =====
-- Runs of the modelled code at concrete inputs.
pub mod Inputs
pub mod Policy
pub mod Service
pub mod Tools
pub mod Edits
pub mod Eventbus
pub mod Remediation
pub mod Grpc
pub mod Storage
pub mod Workspace
pub mod Sessions
