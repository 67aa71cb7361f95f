-- ===== src/Grpc.antt =====
-- internal/grpcapi: authentication, and the service behind its checks.
pub mod Auth
pub mod Admission
pub mod Roles
pub mod Server
pub mod Access
pub mod Ownership
