-- ===== src/Tss/Progress.antt =====
-- That the coordinator of a signing starts it once enough peers are ready: `initiate` of
-- tss/coordinator.go over `Ready` of tss/ecdsa/signing/signing.go.
use sprinter_signing.Base.{
  ℕ, suc, ◌+◌, ◌≤◌, ◌<◌, ◌≡◌, refl, ap, Bool, true, false, List, [], ◌∷◌, ◌++◌, arith, Result, ok,
  contains, keep, length, ◌∙◌, All, Distinct, contains-append,
}
use sprinter_signing.Base.Text.{Text}
use sprinter_signing.Peers.{PeerId}
use sprinter_signing.Tss.Process.{TssError}
use sprinter_signing.Tss.Signing.{Signing, start_params, ready}
use sprinter_signing.Tss.Quorum.{signing_process}
use sprinter_signing.Tss.Coordinator.Initiate.{
  Event, ready_message, tick, Action, broadcast_initiate, stop_ticker, broadcast_start,
  start_process, add_ready, turn, loop, initiate,
}

-- The peers that are ready after ready messages of some senders, in order.
abbrev pub gathered : List PeerId → List PeerId → List PeerId → List PeerId
gathered excluded rs [] = rs
gathered excluded rs (p ∷ ps) = gathered excluded (add_ready excluded rs p) ps

-- Whether some action starts the process.
abbrev pub has_start : List Action → Bool
has_start [] = false
has_start (start_process params ∷ actions) = true
has_start (broadcast_initiate ∷ actions) = has_start actions
has_start (stop_ticker ∷ actions) = has_start actions
has_start (broadcast_start msg ∷ actions) = has_start actions

has_start-append : (xs ys : List Action) → has_start ys ≡ true → has_start (xs ++ ys) ≡ true
has_start-append [] ys h = h
has_start-append (start_process t ∷ xs) ys h = refl
has_start-append (broadcast_initiate ∷ xs) ys h = has_start-append xs ys h
has_start-append (stop_ticker ∷ xs) ys h = has_start-append xs ys h
has_start-append (broadcast_start t ∷ xs) ys h = has_start-append xs ys h

-- The events are ready messages and ticks: the context does not end and no process has failed.
abbrev pub messages_of : List PeerId → List Event
messages_of [] = []
messages_of (p ∷ ps) = ready_message p ∷ tick ∷ messages_of ps

-- How many of the ready peers hold a key share.
abbrev pub holders : Signing → List PeerId → ℕ
holders s rs = length (keep (contains s.key.peers) rs)

holders-snoc :
    (s : Signing) (rs : List PeerId) (p : PeerId) → holders s (rs ++ p ∷ []) ≤ suc (holders s rs)
holders-snoc s [] p = ground arith
holders-snoc s (r ∷ rs) p = ground (arith, holders-snoc s rs p)

holders-add_ready :
    (s : Signing) (excluded rs : List PeerId) (p : PeerId)
    → holders s (add_ready excluded rs p) ≤ suc (holders s rs)
unfolding add_ready
holders-add_ready s excluded rs p = ground (arith, holders-snoc s rs p)

-- A peer whose ready message counts: it holds a key share, is not excluded and has not been counted.
abbrev pub IsFresh : Signing → List PeerId → List PeerId → PeerId → Type 0
IsFresh s excluded rs p =
    (contains excluded p ≡ false) × (contains rs p ≡ false) × (contains s.key.peers p ≡ true)

holders-fresh :
    (s : Signing) (rs : List PeerId) (p : PeerId)
    → contains s.key.peers p ≡ true
    → holders s (rs ++ p ∷ []) ≡ suc (holders s rs)
holders-fresh s [] p h = ground (arith, h)
holders-fresh s (r ∷ rs) p h = ground (arith, holders-fresh s rs p h)

still-IsFresh :
    (s : Signing) (excluded rs : List PeerId) (p : PeerId) (ps : List PeerId)
    → contains ps p ≡ false
    → All (IsFresh s excluded rs) ps
    → All (IsFresh s excluded (rs ++ p ∷ [])) ps
still-IsFresh s excluded rs p [] n h = tt
still-IsFresh s excluded rs p (q ∷ ps) n h = (
  (h.0.0, ground (arith, n, h.0.1, contains-append rs (p ∷ []) q), h.0.2),
  still-IsFresh s excluded rs p ps (ground (arith, n)) h.1,
)

holders-gathered :
    (s : Signing) (excluded rs ps : List PeerId)
    → Distinct ps
    → All (IsFresh s excluded rs) ps
    → holders s (gathered excluded rs ps) ≡ holders s rs + length ps
unfolding add_ready
holders-gathered s excluded rs [] d h = omega arith
holders-gathered s excluded rs (p ∷ ps) d h =
    ap (λ l. holders s (gathered excluded l ps)) {x = add_ready excluded rs p} {y = rs ++ p ∷ []}
      (ground (arith, h.0.0, h.0.1))
    ∙ omega (
      arith,
      holders-gathered s excluded (rs ++ p ∷ []) ps d.1 (still-IsFresh s excluded rs p ps d.0 h.1),
      holders-fresh s rs p h.0.2,
    )

module _ (id_bytes : PeerId → List ℕ) (keccak256 : List ℕ → List ℕ) (encode : List PeerId → Text)
    (s : Signing) (marshal_start : Text → Result TssError Text) (excluded : List PeerId) where
  loop-has_start :
      (msg : Text → Text)
      → ((t : Text) → marshal_start t ≡ ok (msg t))
      → (rs ps : List PeerId) → holders s rs ≤ s.key.threshold
      → s.key.threshold < holders s (gathered excluded rs ps)
      → has_start
          (loop
            (signing_process id_bytes keccak256 encode s)
            marshal_start
            excluded
            rs
            (messages_of ps)).0
        ≡ true
  unfolding loop turn signing_process ready
  loop-has_start msg m rs [] low high = absurd (omega (arith, low, high))
  loop-has_start msg m rs (p ∷ ps) low high =
      let rs' = add_ready excluded rs p in
      ground (
        arith,
        low,
        m (encode (start_params id_bytes keccak256 s rs')),
        holders-add_ready s excluded rs p,
        λ (low' : holders s rs' ≤ s.key.threshold). loop-has_start msg m rs' ps low' high,
      )

  -- With a threshold of at least 1, a coordinator that holds a key share starts its signing when as many other peers as the threshold,
  -- or more, each of which holds a key share and is not excluded, have sent their ready messages, with
  -- ticks in between, if the start message encodes: the number of ready peers cannot pass the one that a
  -- signing waits for.
  pub initiate-has_start :
      (msg : Text → Text) (host : PeerId) (ps : List PeerId)
      → ((t : Text) → marshal_start t ≡ ok (msg t))
      → 0 < s.key.threshold
      → contains s.key.peers host ≡ true
      → Distinct ps
      → All (IsFresh s excluded (host ∷ [])) ps
      → s.key.threshold ≤ length ps
      → has_start
          (initiate
            (signing_process id_bytes keccak256 encode s)
            marshal_start
            excluded
            host
            (messages_of ps)).0
        ≡ true
  unfolding initiate
  initiate-has_start msg host ps m low holds d fresh many =
      loop-has_start msg m (host ∷ []) ps (ground (arith, low, holds))
        (ground (arith, many, holds, holders-gathered s excluded (host ∷ []) ps d fresh))
