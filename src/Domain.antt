-- ===== src/Domain.antt =====
-- internal/domain: the values that the runtime's services exchange. A string that the program
-- takes apart is a `Text`, one that it only compares is a `String`, and a time is its nanoseconds
-- since the zero time.
mod Capabilities
mod Invocations
mod Sessions
mod Messages
unfoldable pub use Capabilities.*
unfoldable pub use Invocations.*
unfoldable pub use Sessions.*
unfoldable pub use Messages.*
