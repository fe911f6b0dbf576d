-- ===== src/Peers/Subsets.antt =====
-- What the peer sets of tss/ecdsa/common/utils.go hold.
use sprinter_signing.Base.{
  ◌≡◌, not, ◌&&◌, List, arith, contains, contains-keep, Distinct, Distinct-keep,
}
use sprinter_signing.Peers.Defs.{PeerId, exclude_peers, peers_intersection}

-- Excluding peers keeps exactly the peers that are not excluded, and intersecting exactly those that
-- are in both lists.
pub peer_sets_members :
    (peers others : List PeerId) (p : PeerId)
    → (contains (exclude_peers peers others) p ≡ (contains peers p && not (contains others p)))
      × (contains (peers_intersection peers others) p ≡ (contains peers p && contains others p))
unfolding exclude_peers peers_intersection
peer_sets_members peers others p = ground (
  arith,
  contains-keep (λ q. not (contains others q)) peers p,
  contains-keep (contains others) peers p,
)

pub Distinct-peers_intersection :
    (peers others : List PeerId) → Distinct peers → Distinct (peers_intersection peers others)
unfolding peers_intersection
Distinct-peers_intersection peers others d = Distinct-keep (contains others) peers d
