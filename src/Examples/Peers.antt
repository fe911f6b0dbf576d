-- ===== src/Examples/Peers.antt =====
-- Peers with one-byte names and the identity as hash: the rank of a peer in a session is its name.
use mathlib.Core.List.Perm
use sprinter_signing.Base.{ℕ, ◌≡◌, List, [], ◌∷◌, arith}
use sprinter_signing.Peers.{PeerId, rank_of, coordinator, coordinator-perm, big_endian_uint64}

abbrev eight_bytes : PeerId → List ℕ
eight_bytes p = 0 ∷ 0 ∷ 0 ∷ 0 ∷ 0 ∷ 0 ∷ 0 ∷ p ∷ []

abbrev no_hash : List ℕ → List ℕ
no_hash bytes = bytes

abbrev three_peers : List PeerId
three_peers = 5 ∷ 9 ∷ 7 ∷ []

abbrev other_order : List PeerId
other_order = 9 ∷ 5 ∷ 7 ∷ []

coordinator-perm_example :
    coordinator eight_bytes no_hash [] three_peers ≡ coordinator eight_bytes no_hash [] other_order
unfolding rank_of big_endian_uint64
coordinator-perm_example =
    coordinator-perm eight_bytes no_hash three_peers other_order [] (Perm.swap 9 5 (7 ∷ []))
      (ground arith)
