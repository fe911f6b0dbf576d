-- ===== src/Comm/Transport/Broadcast.antt =====
-- `Broadcast` of comm/p2p/libp2p.go.
use sprinter_signing.Base.{
  ◌≡◌, refl, false, not, Option, none, some, List, [], ◌∷◌, map, arith, if◌then◌else◌, ◌==◌, ap,
  ◌∙◌, contains, keep, contains-keep,
}
use sprinter_signing.Base.Dict.{nat_key}
use sprinter_signing.Base.Text.{Text}
use sprinter_signing.Peers.{PeerId}
use sprinter_signing.Comm.Transport.Send.{StreamManager, SendError, Network, send_message}

pub data Outcome : Type 0 where
  sent : PeerId → Outcome
  failed : PeerId → SendError → Outcome

abbrev pub outcome : PeerId → Option SendError → Outcome
outcome p none = sent p
outcome p (some e) = failed p e

abbrev first_error :
    PeerId → Option SendError → Option (PeerId × SendError) → Option (PeerId × SendError)
first_error p none later = later
first_error p (some e) later = some (p, e)

-- The sends of `Broadcast` in the order in which they finish: the streams after them, the first error
-- with its peer (`CommunicationError`), and what became of each.
unfoldable pub send_all :
    Network
    → Text
    → List PeerId
    → StreamManager
    → StreamManager × Option (PeerId × SendError) × List Outcome
send_all net msg [] sm = (sm, none, [])
send_all net msg (p ∷ ps) sm =
    let (sm', e) = send_message net p msg sm in
    let (sm'', e', outcomes) = send_all net msg ps sm' in
    (sm'', first_error p e e', outcome p e ∷ outcomes)

-- `Broadcast` of a message that encodes: `finish` is the order in which the goroutines finish.
unfoldable pub broadcast :
    Network
    → (List PeerId → List PeerId)
    → PeerId
    → List PeerId
    → Text
    → StreamManager
    → StreamManager × Option (PeerId × SendError) × List Outcome
unfolding send_all
broadcast net finish host peers msg sm =
    send_all net msg (finish (keep (λ p. not (host == p)) peers)) sm

abbrev pub receiver : Outcome → PeerId
receiver (sent p) = p
receiver (failed p e) = p

-- The first failure among the outcomes.
abbrev pub first_failure : List Outcome → Option (PeerId × SendError)
first_failure [] = none
first_failure (sent p ∷ os) = first_failure os
first_failure (failed p e ∷ os) = some (p, e)

pub send_all_lem :
    (net : Network) (msg : Text) (peers : List PeerId) (sm : StreamManager)
    → let (sm', e, outcomes) = send_all net msg peers sm in
      (map receiver outcomes ≡ peers) × (e ≡ first_failure outcomes)
unfolding send_all
send_all_lem net msg [] sm = (refl, refl)
send_all_lem net msg (p ∷ ps) sm =
    let (sm', e) = send_message net p msg sm in step e _ _ (send_all_lem net msg ps sm')
  where
    step :
        (e : Option SendError) (e' : Option (PeerId × SendError)) (outcomes : List Outcome)
        → (map receiver outcomes ≡ ps) × (e' ≡ first_failure outcomes)
        → (map receiver (outcome p e ∷ outcomes) ≡ p ∷ ps)
          × (first_error p e e' ≡ first_failure (outcome p e ∷ outcomes))
    step none e' os h = (ap (λ l. p ∷ l) h.0, h.1)
    step (some x) e' os h = (ap (λ l. p ∷ l) h.0, refl)

-- A broadcast sends to each of the peers but the host, whatever the other sends come to, in the order
-- in which the sends finish, and its error is that of the first send to fail: it is none exactly if
-- none fails.
pub broadcast_lem :
    (net : Network) (finish : List PeerId → List PeerId) (host : PeerId) (peers : List PeerId)
    (msg : Text) (sm : StreamManager)
    → ((l : List PeerId) (p : PeerId) → contains (finish l) p ≡ contains l p)
    → let (sm', e, outcomes) = broadcast net finish host peers msg sm in
      ((p : PeerId)
        → contains (map receiver outcomes) p ≡ (if host == p then false else contains peers p))
      × (map receiver outcomes ≡ finish (keep (λ p. not (host == p)) peers))
      × (e ≡ first_failure outcomes)
unfolding broadcast
broadcast_lem net finish host peers msg sm h =
    let targets = keep (λ p. not (host == p)) peers in
    let (order, error) = send_all_lem net msg (finish targets) sm in
    (
      λ p.
          ap (λ l. contains l p) order
          ∙ h targets p
          ∙ contains-keep (λ q. not (host == q)) peers p
          ∙ ground arith,
      order,
      error,
    )
