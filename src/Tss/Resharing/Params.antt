-- ===== src/Tss/Resharing/Params.antt =====
-- What the start parameters that a relayer accepts satisfy: validateStartParams of
-- tss/ecdsa/resharing/resharing.go, and the parameters of `StartParams` among them.
use sprinter_signing.Base.{ℕ, ◌≤◌, ◌<◌, ◌≡◌, refl, List, arith, ok, length}
use sprinter_signing.Base.Int.{ℤ, pos, negsuc}
use sprinter_signing.Base.Text.{text_eq_iff}
use sprinter_signing.Peers.{PeerId, peers_intersection}
use sprinter_signing.Tss.Resharing.Defs.{
  StartParams, Resharing, sort_peers, validate_start_params, is_subset_valid,
}

-- Parameters that are accepted have a threshold from 1 to the size of the subset, and for a relayer that
-- holds a key share of some peers the subset, sorted, is those of the key share's peers, sorted, that the
-- peerstore has. The accepted parameters are the received ones with a sorted subset.
pub validate_start_params_lem :
    (rank : PeerId → ℕ) (r r' : Resharing) (threshold : ℤ) (subset : List PeerId)
    (params' : StartParams)
    → validate_start_params rank r (record { old_threshold = threshold; old_subset = subset })
      ≡ ok (r', params')
    → ((t : ℕ) × (threshold ≡ pos t) × (0 < t) × (t ≤ length subset))
      × (params'.old_threshold ≡ threshold)
      × (params'.old_subset ≡ sort_peers rank subset)
      × (0 < length r.key.peers
          → params'.old_subset ≡ peers_intersection (sort_peers rank r.key.peers) r.peerstore)
unfolding validate_start_params is_subset_valid
validate_start_params_lem rank r r' (pos t) subset params' h = (
  (t, refl, ground arith, ground arith),
  ground arith,
  ground arith,
  λ held. ground (
    arith,
    held,
    text_eq_iff (sort_peers rank subset)
        (peers_intersection (sort_peers rank r.key.peers) r.peerstore),
  ),
)
validate_start_params_lem rank r r' (negsuc t) subset params' h = ground arith
