-- ===== src/Api.antt =====
-- api/: the HTTP handlers that turn requests into messages for the relayer.
pub mod Numbers
pub mod BigInts
pub mod Signing
pub mod Unlock
pub mod Status
