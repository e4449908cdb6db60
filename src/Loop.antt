-- ===== src/Loop.antt =====
-- src/io.rs: the event loop.
pub mod Site
pub mod Fields
pub mod Turns
pub mod Entry
pub mod Commands
pub mod Events
pub mod Runs
pub mod Handled
pub mod Rounds
pub mod Steady
pub mod Turned
pub mod Seats
pub mod Entering
pub mod Queued
pub mod Kept
pub mod Ledger
pub mod Distinct
pub mod Identity
pub mod Leak
pub mod Unfailing
pub mod Obeyed
pub mod Answered
pub mod Faults
pub mod Tally
pub mod Farewell
pub mod Heeded
pub mod Timers
pub mod Gone
pub mod Alarmed
pub mod Served
pub mod Outputs
pub mod Broadcast
pub mod Stopping
