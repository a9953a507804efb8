-- ===== src/Client/Tables.antt =====
-- client/src/config: the methods over the tables `config` and `log`, and the queries that list peers.
-- Each is first the statement of `Transaction` and then the method of `Config` that runs it alone.
pub mod Settings
pub mod Log
pub mod Listing
pub mod Laws
pub mod LogLaws
