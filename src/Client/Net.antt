-- ===== src/Client/Net.antt =====
-- client/src/net_p2p: the exchange of files with other clients.
pub mod Obfuscation
pub mod Received
pub mod Quota
pub mod Transport
pub mod Stream
pub mod Replay
pub mod Arrival
pub mod Requests
pub mod Connections
pub mod PlainCodec
pub mod LastingMap
mod Examples
mod RequestExamples
