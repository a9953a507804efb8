-- ===== src/Client/Packfile.antt =====
-- client/src/backup/filesystem/packfile: the packfile manager and its index.
pub mod Types
pub mod Search
pub mod Index
pub mod Pack
pub mod Unpack
pub mod Format
pub mod Written
pub mod Files
pub mod Kept
pub mod Flushes
pub mod Adds
mod Examples
