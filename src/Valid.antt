-- ===== src/Valid.antt =====
-- src/connection.rs: what holds of a connection between any two calls of its methods.
pub mod Rooms
pub mod Invariant
pub mod Closing
pub mod Setup
pub mod Output
pub mod Input
pub mod History
pub mod Names
