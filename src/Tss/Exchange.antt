-- ===== src/Tss/Exchange.antt =====
-- tss/ecdsa/common/base.go: the messages of the tss library from one party to another, through
-- `ProcessOutboundMessages` and `ProcessInboundMessages`. The library's messages are a parameter.
use sprinter_signing.Base.{
  ◌≡◌, Bool, Option, some, List, arith, Result, ok, err, ◌>>=◌, if◌then◌else◌,
}
use sprinter_signing.Base.Dict.{Dict, lookup, nat_key}
use sprinter_signing.Base.Text.{Text}
use sprinter_signing.Peers.{PeerId}
use sprinter_signing.Tss.Process.{TssError, failure}
use sprinter_signing.Tss.Message.{Json, TssMessage, marshal_tss_message, unmarshal_tss_message}
use sprinter_signing.Tss.Parties.{Party, ids, DecodeError, broadcast_peers, broadcast_peers_lem}

-- `tss.Message`: what `WireBytes` returns, its routing with it, and the receivers that the message names.
pub record Outgoing : Type 0 where
  pub wire_bytes : Result TssError (Text × Bool)
  pub is_broadcast : Bool
  pub to : List Party

abbrev pub or_decode_error {κ} : {A : Type κ} → Result DecodeError A → Result TssError A
or_decode_error (ok a) = ok a
or_decode_error (err e) = err (failure 0)

-- A message of the loop of `ProcessOutboundMessages`: the peers and the payload that are broadcast, or an
-- error that is logged.
unfoldable pub process_outbound_message :
    Json TssMessage
    → (PeerId → Option PeerId)
    → List PeerId
    → Outgoing
    → Result TssError (List PeerId × Text)
unfolding marshal_tss_message broadcast_peers
process_outbound_message json decode peers msg = do
  (bytes, is_broadcast) ← msg.wire_bytes
  payload ← marshal_tss_message json bytes is_broadcast
  receivers ← or_decode_error (broadcast_peers decode peers msg.is_broadcast msg.to)
  ok (receivers, payload)

-- The call of `UpdateFromBytes`; an unknown sender is a nil party, for which a panic of the library is
-- recovered from.
pub record Update : Type 0 where
  pub msg_bytes : Text
  pub sender : Option Party
  pub is_broadcast : Bool

-- A message of the loop of `ProcessInboundMessages`.
unfoldable pub process_inbound_message :
    Json TssMessage → Dict PeerId Party → PeerId → Text → Result TssError Update
unfolding unmarshal_tss_message
process_inbound_message json party_store sender payload = do
  msg ← unmarshal_tss_message json payload
  ok (record {
    msg_bytes = msg.msg_bytes;
    sender = lookup sender party_store;
    is_broadcast = msg.is_broadcast;
  })

-- A message of the library whose bytes can be written goes to all peers of the process if it is a
-- broadcast and else to those that it names, and each of them that gets it updates its party with the
-- same bytes and the same routing, as sent by the party that it knows under the sender's ID.
pub exchange_lem :
    (json : Json TssMessage) (decode : PeerId → Option PeerId) (peers : List PeerId)
    (msg : Outgoing) (bytes payload : Text) (routed : Bool) (party_store : Dict PeerId Party)
    (sender : PeerId)
    → ((m : TssMessage) (t : Text) → json.marshal m ≡ ok t → json.unmarshal t ≡ ok m)
    → ((p : PeerId) → decode p ≡ some p)
    → msg.wire_bytes ≡ ok (bytes, routed)
    → json.marshal (record { msg_bytes = bytes; is_broadcast = routed }) ≡ ok payload
    → (process_outbound_message json decode peers msg
        ≡ ok (if msg.is_broadcast then peers else ids msg.to, payload))
      × (process_inbound_message json party_store sender payload
          ≡ ok (record {
            msg_bytes = bytes;
            sender = lookup sender party_store;
            is_broadcast = routed;
          }))
unfolding process_outbound_message process_inbound_message marshal_tss_message unmarshal_tss_message
exchange_lem json decode peers msg bytes payload routed party_store sender inverse decodes w m = (
  ground (arith, w, m, broadcast_peers_lem decode peers msg.is_broadcast msg.to decodes),
  ground (arith, inverse (record { msg_bytes = bytes; is_broadcast = routed }) payload m),
)
