-- ===== src/Client/Backup.antt =====
-- client/src/backup: how packing, sending and restoring are coordinated.
pub mod Orchestrator
pub mod Pausing
pub mod Sending
pub mod Connecting
pub mod Loop
