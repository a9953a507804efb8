-- ===== src/Server.antt =====
-- server/src: the coordination server.
pub mod Error
pub mod SumQueue
pub mod Connections
pub mod Database
pub mod Auth
pub mod Ledger
pub mod Matching
pub mod Handlers
