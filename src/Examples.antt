-- ===== src/Examples.antt =====
-- The theorems at concrete inputs.
pub mod Caches
pub mod Configs
pub mod Registration
pub mod Relays
pub mod Protocols
pub mod Hashes
pub mod Peers
pub mod Comm
pub mod Processes
pub mod Coordinators
pub mod Chains
pub mod Listening
pub mod Requests
