-- ===== src/Service.antt =====
-- internal/app: the workspace service.
pub mod Errors
pub mod Quota
pub mod Invocations
pub mod Runtime
pub mod Schema
pub mod Ports
pub mod Reports
pub mod Invoke
pub mod Complete
pub mod Tally
pub mod Endings
pub mod Story
pub mod Course
pub mod Guarantees
pub mod Access
pub mod Sessions
pub mod Listing
pub mod Listed
pub mod Reading
pub mod Given
pub mod Sources
