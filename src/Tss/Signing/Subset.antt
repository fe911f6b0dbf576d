-- ===== src/Tss/Signing/Subset.antt =====
-- Which peers a signing starts with, and that it runs once.
use mathlib.Core.List.{append-nil, append_assoc, Perm}
use mathlib.Core.List.Perm
use sprinter_signing.Base.{
  ℕ, zero, suc, ◌+◌, ◌≡◌, refl, ap, sym, subst, ne→==, ◌∙◌, Bool, true, ◌&&◌, List, [], ◌∷◌, ◌++◌,
  map, arith, ==_iff, Result, ok, contains, contains-keep, length, take, length-append, Distinct,
  Distinct-keep,
}
use sprinter_signing.Base.Perms.{contains-perm, length-perm, Distinct-perm}
use sprinter_signing.Base.Sort.{sort_by_rank, sort_by_rank-perm}
use sprinter_signing.Peers.{PeerId, peer_msgs, sort_peers_for_session, get_peer_ids, rank_of}
use sprinter_signing.Tss.Process.{TssError}
use sprinter_signing.Tss.Signing.Defs.{
  Signing, ready_participants, ready, start_params, choose_subset,
}

choose_subset-take :
    (limit k : ℕ) (chosen ps : List PeerId)
    → length chosen + suc k ≡ limit
    → choose_subset limit chosen ps ≡ chosen ++ take (suc k) ps
unfolding choose_subset
choose_subset-take limit k chosen [] h = sym (append-nil chosen)
choose_subset-take limit zero chosen (p ∷ ps) h =
    rw ((==_iff (length (chosen ++ p ∷ [])) limit).1 (omega (arith, length-append chosen (p ∷ []))))
choose_subset-take limit (suc k) chosen (p ∷ ps) h =
    rw (ne→== (length (chosen ++ p ∷ [])) limit (λ e. omega (arith, length-append chosen (p ∷ []))))
      (choose_subset-take limit k (chosen ++ p ∷ []) ps
          (omega (arith, length-append chosen (p ∷ [])))
        ∙ append_assoc chosen (p ∷ []) (take (suc k) ps))

take_all {ℓ} : {A : Type ℓ} (n : ℕ) (xs : List A) → length xs ≡ n → take n xs ≡ xs
take_all zero [] h = refl
take_all zero (x ∷ xs) h = absurd (omega arith)
take_all (suc n) [] h = refl
take_all (suc n) (x ∷ xs) h = ap (◌∷◌ x) (take_all n xs (omega arith))

get_peer_ids-peer_msgs :
    (peers : List PeerId) (sid : List ℕ) → get_peer_ids (peer_msgs peers sid) ≡ peers
unfolding get_peer_ids
get_peer_ids-peer_msgs [] sid = refl
get_peer_ids-peer_msgs (p ∷ ps) sid = ap (◌∷◌ p) (get_peer_ids-peer_msgs ps sid)

ok-injective : (b c : Bool) → ◌≡◌ {A = Result TssError Bool} (ok b) (ok c) → b ≡ c
ok-injective b c e = cc

module _ (id_bytes : PeerId → List ℕ) (keccak256 : List ℕ → List ℕ) where
  sorted_ids-perm :
      (peers : List PeerId) (sid : List ℕ)
      → Perm (get_peer_ids (sort_peers_for_session id_bytes keccak256 peers sid)) peers
  unfolding sort_peers_for_session get_peer_ids
  sorted_ids-perm peers sid =
      subst
        (λ l.
          Perm (map (λ m. m.id) (sort_by_rank (rank_of id_bytes keccak256) (peer_msgs peers sid)))
            l)
        (get_peer_ids-peer_msgs peers sid)
        (Perm.map (λ m. m.id)
          (sort_by_rank-perm (rank_of id_bytes keccak256) (peer_msgs peers sid)))

  sorted_ready : Signing → List PeerId → List PeerId
  sorted_ready s ready_peers = get_peer_ids (
      sort_peers_for_session id_bytes keccak256 (ready_participants s.key ready_peers) s.session_id)

  sorted_ready-perm :
      (s : Signing) (ready_peers : List PeerId)
      → Perm (sorted_ready s ready_peers) (ready_participants s.key ready_peers)
  unfolding sorted_ready
  sorted_ready-perm s ready_peers =
      sorted_ids-perm (ready_participants s.key ready_peers) s.session_id

  length-sorted_ready :
      (s : Signing) (ready_peers excluded : List PeerId)
      → ready s ready_peers excluded ≡ ok true
      → length (sorted_ready s ready_peers) ≡ s.key.threshold + 1
  unfolding ready
  length-sorted_ready s ready_peers excluded h =
      length-perm (sorted_ready-perm s ready_peers) ∙ (==_iff _ _).0 (ok-injective _ true h)

  start_params-sorted_ready :
      (s : Signing) (ready_peers excluded : List PeerId)
      → ready s ready_peers excluded ≡ ok true
      → start_params id_bytes keccak256 s ready_peers ≡ sorted_ready s ready_peers
  unfolding start_params sorted_ready
  start_params-sorted_ready s ready_peers excluded h =
      let sorted = sorted_ready s ready_peers in
      let many = length-sorted_ready s ready_peers excluded h in
      choose_subset-take (s.key.threshold + 1) s.key.threshold [] sorted (omega arith)
      ∙ take_all (suc s.key.threshold) sorted (omega (arith, many))

  -- When a signing is ready, its start parameters name exactly threshold + 1 peers, and these are the
  -- peers that are ready and hold a key share.
  pub start_params-ready :
      (s : Signing) (ready_peers excluded : List PeerId)
      → ready s ready_peers excluded ≡ ok true
      → let chosen = start_params id_bytes keccak256 s ready_peers in
        (length chosen ≡ s.key.threshold + 1)
        × ((p : PeerId) → contains chosen p ≡ (contains s.key.peers p && contains ready_peers p))
  unfolding ready_participants
  start_params-ready s ready_peers excluded h =
      subst
        (λ l.
          (length l ≡ s.key.threshold + 1)
          × ((p : PeerId) → contains l p ≡ (contains s.key.peers p && contains ready_peers p)))
        (sym (start_params-sorted_ready s ready_peers excluded h))
        (
          length-sorted_ready s ready_peers excluded h,
          λ p.
              contains-perm p (sorted_ready-perm s ready_peers)
              ∙ ground (arith, contains-keep (contains s.key.peers) ready_peers p),
        )

  -- No peer stands twice among them, if none is ready twice.
  pub start_params-Distinct :
      (s : Signing) (ready_peers excluded : List PeerId)
      → ready s ready_peers excluded ≡ ok true
      → Distinct ready_peers
      → Distinct (start_params id_bytes keccak256 s ready_peers)
  unfolding ready_participants
  start_params-Distinct s ready_peers excluded h d =
      subst Distinct (sym (start_params-sorted_ready s ready_peers excluded h)) (
        Distinct-perm (Perm.symm (sorted_ready-perm s ready_peers))
          (Distinct-keep (contains s.key.peers) ready_peers d))
