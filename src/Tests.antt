-- ===== src/Tests.antt =====
-- Runs of the development at concrete inputs.
mod Network
mod Examples
mod Slots
mod Office
mod Loops
mod Endings
mod Sockets
mod Counts
mod Accounts
mod Replies
mod Units
