-- ===== src/Config.antt =====
-- config/: what the relayer is told, read and checked.
pub mod Ports
pub mod Relayer
pub mod Merge
pub mod Evm
pub mod Lighter
pub mod Environment
pub mod Watcher
