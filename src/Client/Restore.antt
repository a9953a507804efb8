-- ===== src/Client/Restore.antt =====
-- client/src/backup: a restore, at the client that asks for its files and at the peer that has them, and
-- the starts of a backup and of a restore, which exclude one another.
pub mod Orchestrator
pub mod Send
pub mod Given
pub mod Returned
pub mod Throttle
pub mod Receiving
pub mod RoundTrip
pub mod Starts
pub mod Exclusion
mod Examples
