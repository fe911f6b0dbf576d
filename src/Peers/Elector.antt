-- ===== src/Peers/Elector.antt =====
-- All relayers elect one coordinator for a session: comm/elector/static.go over tss/util/sort.go.
use mathlib.Core.HLevel.{×_prop}
use mathlib.Core.Logic.Or
use mathlib.Core.List.{Perm, Mem, mem-cons, mem-cons_self, not-mem-nil, nil≢cons}
use mathlib.Core.List.Perm
use sprinter_signing.Base.{
  ℕ, ◌≤◌, ◌≡◌, ◌≢◌, refl, ap, subst, Bool, List, [], ◌∷◌, map, arith, All, contains, true, Distinct,
}
use sprinter_signing.Base.Sort.{
  sort_by_rank, sort_by_rank-Descending, sort_by_rank-perm, sort_by_rank-perm_eq, sorted_unique,
  Distinct-NoCollision, Descending, first_highest,
}
use sprinter_signing.Peers.Defs.{
  PeerId, SessionId, PeerMsg, SortablePeerSlice, peer_msgs, rank_of, sort_peers_for_session,
  coordinator, first_id,
}

PeerMsg-set : IsSet PeerMsg
PeerMsg-set = hlevel

slice_set : IsSet (List PeerMsg)
slice_set = hlevel

bool_set : IsSet Bool
bool_set = hlevel

session_set : IsSet SessionId
session_set = hlevel

-- Each entry of the slice is a peer with the session's ID.
peer_msgs-mem :
    (peers : List PeerId) (sid : SessionId) {m : PeerMsg}
    → Mem m (peer_msgs peers sid)
    → (m.session_id ≡ sid) × (contains peers m.id ≡ true)
peer_msgs-mem [] sid h = absurd (not-mem-nil h)
peer_msgs-mem (p ∷ ps) sid {m} h =
    Or.elim (×_prop (session_set _ _) (bool_set _ _)) (mem-cons.0 h)
      (λ e. rw e (refl, ground arith))
      (λ k. let (a, b) = peer_msgs-mem ps sid k in (a, ground arith))

All-peer_msgs {κ} :
    (P : PeerMsg → Type κ) (peers : List PeerId) (sid : SessionId)
    → All P (peer_msgs peers sid)
    → All (λ p. P (record { id = p; session_id = sid })) peers
All-peer_msgs P [] sid a = tt
All-peer_msgs P (p ∷ ps) sid a = (a.0, All-peer_msgs P ps sid a.1)

first_id-highest :
    (id_bytes : PeerId → List ℕ) (keccak256 : List ℕ → List ℕ) (peers : List PeerId)
    (sid : SessionId) (l : List PeerMsg)
    → l ≢ []
    → Perm l (peer_msgs peers sid)
    → Descending (rank_of id_bytes keccak256) l
    → (contains peers (first_id id_bytes keccak256 l) ≡ true)
      × All
          (λ p.
            rank_of id_bytes keccak256 (record { id = p; session_id = sid })
            ≤ rank_of id_bytes keccak256
                (record { id = first_id id_bytes keccak256 l; session_id = sid }))
          peers
first_id-highest b k peers sid [] n p d = absurd (n refl)
first_id-highest b k peers sid (m ∷ ms) n p d =
    let (e, c) = peer_msgs-mem peers sid {m = m} ((Perm.mem_iff p).0 mem-cons_self) in
    (
      c,
      subst
          (λ t.
            All
              (λ q.
                rank_of b k (record { id = q; session_id = sid })
                ≤ rank_of b k (record { id = m.id; session_id = t }))
              peers)
          e
          (All-peer_msgs (λ x. rank_of b k x ≤ rank_of b k m) peers sid
            (first_highest (rank_of b k) m ms _ p d)),
    )

module _ (id_bytes : PeerId → List ℕ) (keccak256 : List ℕ → List ℕ) where
  -- The hash prefixes by which the peers of a session are sorted.
  abbrev pub session_ranks : List PeerId → SessionId → List ℕ
  session_ranks peers sid = map (rank_of id_bytes keccak256) (peer_msgs peers sid)

  -- Two relayers that hold the same peers in different orders elect the same coordinator, if no two
  -- of the peers have the same 64-bit hash prefix in this session.
  pub coordinator-perm :
      (peers others : List PeerId) (sid : SessionId)
      → Perm peers others
      → Distinct (session_ranks peers sid)
      → coordinator id_bytes keccak256 sid peers ≡ coordinator id_bytes keccak256 sid others
  unfolding coordinator sort_peers_for_session
  coordinator-perm peers others sid p d = ap (first_id id_bytes keccak256) (
      sort_by_rank-perm_eq (rank_of id_bytes keccak256) slice_set (Perm.map _ p)
        (Distinct-NoCollision (rank_of id_bytes keccak256) PeerMsg-set (peer_msgs peers sid) d))

  -- Whatever algorithm `sort.Sort` uses: a rearrangement of the session's peers in which no peer has
  -- a larger hash than one before it is the sorted slice, if no two peers have the same hash prefix.
  pub sort_peers_for_session-any_algorithm :
      (peers : List PeerId) (sid : SessionId) (sorted : SortablePeerSlice)
      → Perm (peer_msgs peers sid) sorted
      → Distinct (session_ranks peers sid)
      → Descending (rank_of id_bytes keccak256) sorted
      → sorted ≡ sort_peers_for_session id_bytes keccak256 peers sid
  unfolding sort_peers_for_session
  sort_peers_for_session-any_algorithm peers sid sorted p d s =
      sorted_unique (rank_of id_bytes keccak256) slice_set p
        (Distinct-NoCollision (rank_of id_bytes keccak256) PeerMsg-set (peer_msgs peers sid) d) s

  -- The coordinator of a session with at least one peer is one of the peers, and no peer has a larger
  -- hash in this session.
  pub coordinator-highest :
      (peer : PeerId) (rest : List PeerId) (sid : SessionId)
      → let c = coordinator id_bytes keccak256 sid (peer ∷ rest) in
        (contains (peer ∷ rest) c ≡ true)
        × All
            (λ p.
              rank_of id_bytes keccak256 (record { id = p; session_id = sid })
              ≤ rank_of id_bytes keccak256 (record { id = c; session_id = sid }))
            (peer ∷ rest)
  unfolding coordinator sort_peers_for_session
  coordinator-highest peer rest sid =
      first_id-highest id_bytes keccak256 (peer ∷ rest) sid
        (sort_by_rank (rank_of id_bytes keccak256) (peer_msgs (peer ∷ rest) sid))
        (λ e. nil≢cons (
          Perm.nil-eq (
            subst (λ l. Perm l (peer_msgs (peer ∷ rest) sid)) e
              (sort_by_rank-perm (rank_of id_bytes keccak256) (peer_msgs (peer ∷ rest) sid)))))
        (sort_by_rank-perm (rank_of id_bytes keccak256) (peer_msgs (peer ∷ rest) sid))
        (sort_by_rank-Descending (rank_of id_bytes keccak256) (peer_msgs (peer ∷ rest) sid))
