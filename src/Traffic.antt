-- ===== src/Traffic.antt =====
-- src/connection.rs: what a connection does with the bytes that it sends and receives.
pub mod Interest
pub mod Sending
pub mod Delivery
pub mod Ending
pub mod Gaining
pub mod Receiving
pub mod Writing
pub mod Hearing
pub mod Quiet
pub mod Replay
pub mod Listening
pub mod Pieces
pub mod Intake
