-- ===== src/Peers/Defs.antt =====
-- tss/util/util.go (the sortable slice of peers), tss/util/sort.go, the peer sets of
-- tss/ecdsa/common/utils.go, and the static coordinator elector of comm/elector/static.go.
use mathlib.Core.List.{foldl}
use sprinter_signing.Base.{
  ℕ, ◌+◌, ◌*◌, Bool, not, List, [], ◌∷◌, ◌++◌, map, take, ltb, contains, keep,
}
use sprinter_signing.Base.Sort.{sort_by_rank}

abbrev pub PeerId : Type 0
PeerId = ℕ

-- A session ID is the bytes of the Go string.
abbrev pub SessionId : Type 0
SessionId = List ℕ

pub record PeerMsg : Type 0 where
  pub id : PeerId
  pub session_id : SessionId

abbrev pub SortablePeerSlice : Type 0
SortablePeerSlice = List PeerMsg

-- `IsParticipant`, a loop that returns true at the first equal printed ID.
unfoldable pub is_participant : PeerId → List PeerId → Bool
is_participant peer peers = contains peers peer

unfoldable pub exclude_peers : List PeerId → List PeerId → List PeerId
exclude_peers peers excluded = keep (λ p. not (contains excluded p)) peers

unfoldable pub peers_intersection : List PeerId → List PeerId → List PeerId
peers_intersection old new = keep (contains new) old

-- `binary.BigEndian.Uint64`, which reads the first eight bytes.
unfoldable pub big_endian_uint64 : List ℕ → ℕ
big_endian_uint64 bytes = foldl (λ n b. n * 256 + b) 0 (take 8 bytes)

abbrev pub peer_msgs : List PeerId → SessionId → SortablePeerSlice
peer_msgs peers sid = map (λ p. record { id = p; session_id = sid }) peers

unfoldable pub get_peer_ids : SortablePeerSlice → List PeerId
get_peer_ids msgs = map (λ m. m.id) msgs

module _ (id_bytes : PeerId → List ℕ) (keccak256 : List ℕ → List ℕ) where
  unfoldable pub rank_of : PeerMsg → ℕ
  unfolding big_endian_uint64
  rank_of m = big_endian_uint64 (keccak256 (id_bytes m.id ++ m.session_id))

  -- `Less`: the peer with the larger hash comes first.
  unfoldable pub less : PeerMsg → PeerMsg → Bool
  unfolding rank_of
  less a b = ltb (rank_of b) (rank_of a)

  -- `sort.Sort` by `Less`, whose order of the slice is that of the ranks, highest first.
  unfoldable pub sort_peers_for_session : List PeerId → SessionId → SortablePeerSlice
  unfolding sort_by_rank rank_of
  sort_peers_for_session peers sid = sort_by_rank rank_of (peer_msgs peers sid)

  abbrev pub first_id : SortablePeerSlice → PeerId
  first_id [] = 0
  first_id (m ∷ ms) = m.id

  -- `staticCoordinatorElector.Coordinator`: the empty ID where there is no peer.
  unfoldable pub coordinator : SessionId → List PeerId → PeerId
  unfolding sort_peers_for_session
  coordinator sid peers = first_id (sort_peers_for_session peers sid)
