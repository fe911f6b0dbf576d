-- ===== src/Comm/Transport/Send.antt =====
-- comm/p2p/manager.go (`StreamManager`) and the sending half of comm/p2p/libp2p.go. The host of libp2p
-- is a parameter: what resolving and connecting, opening a stream, and writing to one return.
use sprinter_signing.Base.{
  ℕ, ◌≡◌, refl, Bool, true, false, Option, none, some, arith, if◌then◌else◌, ◌==◌, Result, ok, err,
  ◌⊎◌, inl, inr, subst, sym, ap, ◌≢◌, Bool-cases,
}
use sprinter_signing.Base.Dict.{Dict, lookup, insert, erase, nat_key, lookup-insert, lookup-erase}
use sprinter_signing.Base.Text.{Text}
use sprinter_signing.Peers.{PeerId}

abbrev pub Stream : Type 0
Stream = ℕ

-- `streamsByPeer`
abbrev pub StreamManager : Type 0
StreamManager = Dict PeerId Stream

pub data SendError : Type 0 where
  no_route no_stream not_written : SendError

pub record Network : Type 0 where
  pub resolve : PeerId → Bool
  pub new_stream : PeerId → Option Stream
  pub write : Stream → Text → Bool

-- `CloseStream`: the stream is forgotten, whether closing it fails or not.
unfoldable pub close_stream : PeerId → StreamManager → StreamManager
close_stream peer sm = erase peer sm

-- The method `Stream`: the stream that is kept, or a new one, which is kept then.
unfoldable pub stream_to :
    Network → PeerId → StreamManager → StreamManager × Result SendError Stream
stream_to net peer sm = elim (lookup peer sm) [
  | some s ↦ (sm, ok s)
  | none ↦ elim (net.new_stream peer) [
    | some s ↦ (insert peer s sm, ok s)
    | none ↦ (sm, err no_stream)
  ]
]

-- `WriteStream` and what follows it.
unfoldable pub write_to :
    Network
    → PeerId
    → Text
    → StreamManager × Result SendError Stream
    → StreamManager × Option SendError
unfolding close_stream
write_to net to msg (sm, err e) = (sm, some e)
write_to net to msg (sm, ok s) =
    if net.write s msg then (sm, none) else (close_stream to sm, some not_written)

unfoldable pub send_message :
    Network → PeerId → Text → StreamManager → StreamManager × Option SendError
unfolding write_to stream_to
send_message net to msg sm =
    if net.resolve to then write_to net to msg (stream_to net to sm) else (sm, some no_route)

-- What sending a message comes to, for the streams before it, and after it with the error.
abbrev pub IsSent :
    Network → PeerId → Text → StreamManager → StreamManager × Option SendError → Type 0
IsSent net to msg sm (sm', e) =
    (e ≡ some not_written → lookup to sm' ≡ none)
    × (e ≡ none
        → (s : Stream) × (lookup to sm' ≡ some s)
          × (net.write s msg ≡ true)
          × ((t : Stream) → lookup to sm ≡ some t → t ≡ s))
    × ((p : PeerId) → (to == p) ≡ false → lookup p sm' ≡ lookup p sm)

write_to-IsSent :
    (net : Network) (to : PeerId) (msg : Text) (sm sm' : StreamManager) (s : Stream)
    → lookup to sm' ≡ some s
    → ((t : Stream) → lookup to sm ≡ some t → t ≡ s)
    → ((p : PeerId) → (to == p) ≡ false → lookup p sm' ≡ lookup p sm)
    → IsSent net to msg sm (write_to net to msg (sm', ok s))
unfolding write_to close_stream
write_to-IsSent net to msg sm sm' s kept old others = step (Bool-cases (net.write s msg))
  where
    step :
        (net.write s msg ≡ true) ⊎ (net.write s msg ≡ false)
        → IsSent net to msg sm (write_to net to msg (sm', ok s))
    step (inl w) = (
      λ h. ground (arith, w),
      λ h. (s, ground (arith, w, kept), w, old),
      λ p ne. ground (arith, w, others p ne),
    )
    step (inr w) = (
      λ h. ground (arith, w, lookup-erase to to sm'),
      λ h. absurd (ground (arith, w, h)),
      λ p ne. ground (arith, w, ne, others p ne, lookup-erase to p sm'),
    )

moved :
    (net : Network) (to : PeerId) (msg : Text) (sm : StreamManager)
    {x y : StreamManager × Option SendError}
    → x ≡ y
    → IsSent net to msg sm y
    → IsSent net to msg sm x
moved net to msg sm e h = subst (IsSent net to msg sm) (sym e) h

-- An attempt that ends before a stream is there changes nothing.
unsent :
    (net : Network) (to : PeerId) (msg : Text) (sm : StreamManager) (e : SendError)
    → e ≢ not_written
    → IsSent net to msg sm (sm, some e)
unsent net to msg sm e ne =
    (λ h. ground (arith, h, ne), λ h. absurd (ground (arith, h)), λ p h. refl)

stream_to-IsSent :
    (net : Network) (to : PeerId) (msg : Text) (sm : StreamManager) (kept new : Option Stream)
    → lookup to sm ≡ kept
    → net.new_stream to ≡ new
    → IsSent net to msg sm (write_to net to msg (stream_to net to sm))
unfolding stream_to write_to
stream_to-IsSent net to msg sm (some s) new h h' =
    moved net to msg sm
      (ap (write_to net to msg) {x = stream_to net to sm} {y = (sm, ok s)} (ground (arith, h)))
      (write_to-IsSent net to msg sm sm s h (λ t ht. ground (arith, h, ht)) (λ p ne. refl))
stream_to-IsSent net to msg sm none (some s) h h' =
    moved net to msg sm
      (ap (write_to net to msg) {x = stream_to net to sm} {y = (insert to s sm, ok s)}
        (ground (arith, h, h')))
      (write_to-IsSent net to msg sm (insert to s sm) s (ground (arith, lookup-insert to to s sm))
        (λ t ht. ground (arith, h, ht)) (λ p ne. ground (arith, ne, lookup-insert to p s sm)))
stream_to-IsSent net to msg sm none none h h' =
    moved net to msg sm
      (ap (write_to net to msg) {x = stream_to net to sm} {y = (sm, err no_stream)}
        (ground (arith, h, h')))
      (unsent net to msg sm no_stream (λ e. ground (arith, e)))

-- A peer whose message could not be written is sent the next one on a new stream; one whose message
-- was written keeps its stream, the old one if there was one. The streams of the other peers stay.
pub send_message_lem :
    (net : Network) (to : PeerId) (msg : Text) (sm : StreamManager)
    → IsSent net to msg sm (send_message net to msg sm)
unfolding send_message
send_message_lem net to msg sm = step (net.resolve to) refl
  where
    step : (b : Bool) → net.resolve to ≡ b → IsSent net to msg sm (send_message net to msg sm)
    step true h =
        moved net to msg sm (rw h)
          (stream_to-IsSent net to msg sm (lookup to sm) (net.new_stream to) refl refl)
    step false h =
        moved net to msg sm (rw h) (unsent net to msg sm no_route (λ e. ground (arith, e)))
