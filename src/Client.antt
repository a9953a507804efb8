-- ===== src/Client.antt =====
-- client/src: the backup client.
pub mod Defaults
pub mod Bytes
pub mod Packfile
pub mod Config
pub mod Peers
pub mod Tables
pub mod Backup
pub mod Api
pub mod Identity
pub mod Restore
pub mod Net
pub mod Trees
