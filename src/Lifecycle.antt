-- ===== src/Lifecycle.antt =====
-- src/connection.rs: how a connection moves from state to state, and what errors do to it.
pub mod Reactions
pub mod Finality
