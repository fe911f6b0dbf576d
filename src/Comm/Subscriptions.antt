-- ===== src/Comm/Subscriptions.antt =====
-- comm/p2p/subscription.go: which channels receive the messages of a session. A channel is a number.
mod Laws
pub use Laws.*
mod Defs
pub use Defs.{Channel, Subscribers, Range}
unfoldable pub use Defs.{get_subscribers, subscribe_to, unsubscribe_from, type_subscribers}
