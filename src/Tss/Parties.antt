-- ===== src/Tss/Parties.antt =====
-- Parties of the tss library and the peers behind them: tss/ecdsa/common/utils.go, and
-- `BroadcastPeers` and `PopulatePartyStore` of tss/ecdsa/common/base.go. `peer.Decode` is the inverse of
-- printing an ID where it succeeds; it is the argument `decode` where the code uses its failure.
use sprinter_signing.Base.{
  ℕ, ◌≡◌, refl, Bool, true, false, Option, some, List, [], ◌∷◌, map, Result, ok, if◌then◌else◌,
  ◌>>=◌, or_fail,
}
use sprinter_signing.Base.Dict.{Dict, insert, nat_key}
use sprinter_signing.Peers.{PeerId}

pub record Party : Type 0 where
  pub id : PeerId
  pub index : ℕ

abbrev pub ids : List Party → List PeerId
ids = map (λ p. p.id)

pub data DecodeError : Type 0 where
  invalid_peer_id : DecodeError

-- `PeersFromParties` and `PeersFromIDS`: the first ID that does not decode is the error.
unfoldable pub peers_from_ids :
    (PeerId → Option PeerId) → List PeerId → Result DecodeError (List PeerId)
peers_from_ids decode [] = ok []
peers_from_ids decode (id ∷ rest) = do
  peer ← or_fail (decode id) invalid_peer_id
  peers ← peers_from_ids decode rest
  ok (peer ∷ peers)

unfoldable pub peers_from_parties :
    (PeerId → Option PeerId) → List Party → Result DecodeError (List PeerId)
unfolding peers_from_ids
peers_from_parties decode parties = peers_from_ids decode (ids parties)

-- `PartiesFromPeers`, where `sort_party_ids` is the tss library's sorting by key, which numbers the
-- parties from 0.
unfoldable pub parties_from_peers : (List Party → List Party) → List PeerId → List Party
parties_from_peers sort_party_ids peers =
    sort_party_ids (map (λ p. record { id = p; index = 0 }) peers)

-- `PopulatePartyStore`
unfoldable pub populate_party_store : List Party → Dict ℕ Party → Dict ℕ Party
populate_party_store [] store = store
populate_party_store (p ∷ ps) store = populate_party_store ps (insert p.id p store)

-- `BroadcastPeers`: the peers that a message of the tss library goes to; `to` are the receivers that it
-- names.
unfoldable pub broadcast_peers :
    (PeerId → Option PeerId) → List PeerId → Bool → List Party → Result DecodeError (List PeerId)
unfolding peers_from_parties
broadcast_peers decode peers is_broadcast to =
    if is_broadcast then ok peers else peers_from_parties decode to

-- When each ID decodes to itself the peers of the parties are the parties' IDs, and a message goes to
-- all peers of the process if it is a broadcast and to the parties that it names if it is not.
pub broadcast_peers_lem :
    (decode : PeerId → Option PeerId) (peers : List PeerId) (is_broadcast : Bool) (to : List Party)
    → ((p : PeerId) → decode p ≡ some p)
    → broadcast_peers decode peers is_broadcast to ≡ ok (if is_broadcast then peers else ids to)
unfolding broadcast_peers
broadcast_peers_lem decode peers true to h = refl
broadcast_peers_lem decode peers false to h = all_decode to
  where
    all_decode : (ps : List Party) → peers_from_ids decode (ids ps) ≡ ok (ids ps)
    all_decode [] = refl
    all_decode (p ∷ ps) = rw (h p.id) (rw (all_decode ps))
