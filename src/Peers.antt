-- ===== src/Peers.antt =====
-- Peer identities and the choice of peers for a session: tss/util/util.go, tss/util/sort.go,
-- tss/ecdsa/common/utils.go and comm/elector/static.go.
--
-- A `peer.ID` is a number standing for its printed form; `String()` is one-to-one, so the code's
-- comparisons of IDs and of printed IDs are the same test. 0 is the empty ID.
-- The bytes of a printed ID and keccak256 come from third-party packages: they are parameters.
mod Elector
pub use Elector.{
  coordinator-perm, coordinator-highest, sort_peers_for_session-any_algorithm, session_ranks,
}
mod Defs
pub use Defs.{PeerId, SessionId, PeerMsg, SortablePeerSlice, peer_msgs}
unfoldable pub use Defs.{
  is_participant, exclude_peers, peers_intersection, sort_peers_for_session, get_peer_ids,
  coordinator, big_endian_uint64, rank_of, less,
}
mod Subsets
pub use Subsets.*
