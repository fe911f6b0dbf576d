-- ===== src/Tss/Quorum.antt =====
-- A signing and its coordinator together: which peers a signing is started with.
use sprinter_signing.Base.{
  ℕ, ◌+◌, ◌≡◌, ◌⊎◌, true, false, List, [], ◌∷◌, arith, Result, contains, length, Elem, All,
  Distinct,
}
use sprinter_signing.Base.Text.{Text}
use sprinter_signing.Peers.{PeerId}
use sprinter_signing.Tss.Process.{TssError, TssProcess}
use sprinter_signing.Tss.Signing.{
  Signing, ready, start_params, start_params-ready, start_params-Distinct,
}
use sprinter_signing.Tss.Coordinator.Initiate.{
  Event, Action, start_process, broadcast_initiate, stop_ticker, broadcast_start, initiate,
}
use sprinter_signing.Tss.Coordinator.Initiate.Quorum.{senders, IsJustified, initiate-IsJustified}

module _ (id_bytes : PeerId → List ℕ) (keccak256 : List ℕ → List ℕ)
    (encode : List PeerId → Text) where
  -- A signing as the coordinator sees it; `encode` is the JSON encoding of the subset.
  unfoldable pub signing_process : Signing → TssProcess
  signing_process s = record {
    session_id = s.session_id;
    ready = ready s;
    start_params = λ rs. encode (start_params id_bytes keccak256 s rs);
    valid_coordinators = s.key.peers;
  }

  -- The subset that a start names.
  abbrev pub IsQuorum : Signing → PeerId → List PeerId → List PeerId → Action → Type 0
  IsQuorum s host excluded sent (start_process params) =
      (subset : List PeerId) × (params ≡ encode subset)
      × Distinct subset
      × (length subset ≡ s.key.threshold + 1)
      × ((p : PeerId)
          → Elem p subset
          → Elem p s.key.peers × ((p ≡ host) ⊎ (Elem p sent × (contains excluded p ≡ false))))
  IsQuorum s host excluded sent _ = Unit {0}

  justified-IsQuorum :
      (s : Signing) (marshal_start : Text → Result TssError Text) (host : PeerId)
      (excluded sent : List PeerId) (a : Action)
      → IsJustified (signing_process s) marshal_start host excluded sent a
      → IsQuorum s host excluded sent a
  unfolding signing_process
  justified-IsQuorum s m host excluded sent broadcast_initiate j = tt
  justified-IsQuorum s m host excluded sent stop_ticker j = tt
  justified-IsQuorum s m host excluded sent (broadcast_start t) j = tt
  justified-IsQuorum s m host excluded sent (start_process params) (rs, e, r, v) =
      let (many, members) = start_params-ready id_bytes keccak256 s rs excluded r in
      (
        start_params id_bytes keccak256 s rs,
        e,
        start_params-Distinct id_bytes keccak256 s rs excluded r v.distinct,
        many,
        λ p h.
            let both : (contains s.key.peers p ≡ true) × (contains rs p ≡ true) =
              ground (arith, members p) in
            (both.0, v.from_messages p both.1),
      )

  justified-All :
      (s : Signing) (marshal_start : Text → Result TssError Text) (host : PeerId)
      (excluded sent : List PeerId) (actions : List Action)
      → All (IsJustified (signing_process s) marshal_start host excluded sent) actions
      → All (IsQuorum s host excluded sent) actions
  justified-All s m host excluded sent [] j = tt
  justified-All s m host excluded sent (a ∷ as') j = (
    justified-IsQuorum s m host excluded sent a j.0,
    justified-All s m host excluded sent as' j.1,
  )

  -- Whatever messages arrive: each time that a coordinator starts a signing, it names exactly
  -- threshold + 1 different peers, each of which holds a key share and is the coordinator itself or has sent a
  -- ready message and is not excluded.
  pub initiate-IsQuorum :
      (s : Signing) (marshal_start : Text → Result TssError Text) (host : PeerId)
      (excluded : List PeerId) (es : List Event)
      → All
          (IsQuorum s host excluded (senders es))
          (initiate (signing_process s) marshal_start excluded host es).0
  initiate-IsQuorum s m host excluded es =
      justified-All s m host excluded (senders es) _
        (initiate-IsJustified (signing_process s) m host excluded es)
