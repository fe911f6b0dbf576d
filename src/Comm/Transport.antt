-- ===== src/Comm/Transport.antt =====
-- comm/p2p/: sending and receiving messages over streams, and the peers that may connect.
pub mod Frames
pub mod Receive
pub mod Ending
pub mod Send
pub mod Broadcast
pub mod Gate
