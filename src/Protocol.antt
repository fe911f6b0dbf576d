-- ===== src/Protocol.antt =====
-- protocol/: reading the deposits and orders of other protocols from the logs of a transaction.
pub mod Logs
pub mod Http
pub mod LighterApi
pub mod Calls
