-- ===== src/Tss.antt =====
-- The threshold-signature processes and their coordination: tss/.
pub mod Process
pub mod Signing
pub mod Coordinator
pub mod Quorum
pub mod Progress
pub mod Message
pub mod Parties
pub mod Exchange
pub mod Resharing
pub mod KeyStore
pub mod Keygen
