-- ===== src/Comm.antt =====
-- Messages between relayers: comm/ and comm/p2p/.
pub mod Messages
pub mod SubscriptionId
pub mod Subscriptions
pub mod Transport
