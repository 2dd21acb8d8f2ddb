-- ===== src/Types.antt =====
-- libs/shared/src/types: the enumerations that the services exchange, and a balance change.
pub mod Enums
pub mod Change
pub mod RoundTrip
unfoldable pub use Enums.*
pub use Change.*
