-- ===== src/Connection.antt =====
-- src/connection.rs: one connection, in its parts.
mod Fields
mod Closing
mod Growth
mod Output
mod Input
mod Setup
unfoldable pub use Fields.*
unfoldable pub use Closing.*
unfoldable pub use Growth.*
unfoldable pub use Output.*
unfoldable pub use Input.*
unfoldable pub use Setup.*
