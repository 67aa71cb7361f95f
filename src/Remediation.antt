-- ===== src/Remediation.antt =====
-- internal/remediation: the agent that answers alerts with playbooks.
pub mod Agent
pub mod Runs
