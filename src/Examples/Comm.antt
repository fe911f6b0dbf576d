-- ===== src/Examples/Comm.antt =====
-- Subscriptions to the session "across" and to the dashed session "1-across", a line on a stream, and
-- two messages on a connection.
use mathlib.Core.List.{Perm, reverse, reverse_perm}
use mathlib.Core.List.Perm
use sprinter_signing.Comm.Subscriptions.{Range}
use sprinter_signing.Chains.Listener
use sprinter_signing.Chains.Listener.{Relayer, IsRefreshed}
use sprinter_signing.Base.{
  ℕ, refl, true, false, ◌&&◌, Option, none, some, List, [], ◌∷◌, if◌then◌else◌,
}
use sprinter_signing.Base.Text.{Text, bytes, decimal, text_eq, text_key}
use sprinter_signing.Comm.Messages.{across_msg, type_key}
use sprinter_signing.Comm.Subscriptions.{
  Subscribers, subscribe_to, get_subscribers, type_subscribers, get_subscribers-subscribe_to,
}
use sprinter_signing.Comm.Transport.Receive.{
  WireMessage, IsAttributed, process_messages_from_stream,
  process_messages_from_stream-IsAttributed,
}
use sprinter_signing.Comm.Transport.Send.{Network}
use sprinter_signing.Comm.Transport.Gate.{Codec, NetworkTopology}
use sprinter_signing.Base.Int.{pos}
use sprinter_signing.Base.{◌==◌}
use sprinter_signing.Peers.{PeerId}
use sprinter_signing.Comm.Transport.Frames.{newline}

abbrev session : Text
session = bytes "across"

abbrev dashed : Text
dashed = bytes "1-across"

abbrev no_subscribers : Subscribers
no_subscribers = []

-- One range as the map is written, and one from its end.
abbrev forth : Range
forth m = m

abbrev back : Range
back m = reverse m

get_subscribers-subscribe_to_example :
    Perm
      (get_subscribers back
        (subscribe_to no_subscribers session across_msg 3 7).0
        session
        across_msg)
      (if text_eq session session && type_key.same across_msg across_msg
        then 3 ∷ get_subscribers forth no_subscribers session across_msg
        else get_subscribers back no_subscribers session across_msg)
unfolding type_subscribers get_subscribers
get_subscribers-subscribe_to_example =
    get_subscribers-subscribe_to forth back no_subscribers session session across_msg across_msg 3 7
      (λ m. Perm.refl m) (λ m. reverse_perm m) refl refl

-- A message that is encoded as the number in its payload, and its decoding.
abbrev message : ℕ → WireMessage
message n = record { message_type = across_msg; session_id = session; payload = n ∷ [] }

abbrev encode : WireMessage → Text
encode w = w.payload

abbrev decode : Text → Option WireMessage
decode [] = none
decode (n ∷ rest) = some (message n)

abbrev one_channel : Subscribers
one_channel = (session, (across_msg, (decimal 7, 3) ∷ []) ∷ []) ∷ []

process_messages_from_stream-IsAttributed_example :
    IsAttributed 5 (process_messages_from_stream forth decode one_channel 5 (1 ∷ newline ∷ []))
process_messages_from_stream-IsAttributed_example =
    process_messages_from_stream-IsAttributed forth decode one_channel 5 (1 ∷ newline ∷ [])

-- A network on which peer 9 cannot be written to.
abbrev pub network : Network
network = record {
  resolve = λ p. true;
  new_stream = λ p. some p;
  write = λ s msg. if s == 9 then false else true;
}

abbrev as_given : List PeerId → List PeerId
as_given peers = peers

-- Libraries that read a topology of peer 5 with threshold 2 off any body.
abbrev codec : Codec
codec = record {
  addr_info_from_string = λ a. some (record { id = 5; addrs = a ∷ [] });
  parse_int = λ t. some (pos 2);
  decode_hex = λ t. some t;
  encode_hex = λ t. t;
  sha256 = λ t. t;
  decrypt = λ t. t;
  unmarshal = λ t. some (record { peer_addresses = t ∷ []; raw_threshold = [] });
}

abbrev topology : NetworkTopology
topology = record { peers = record { id = 5; addrs = (1 ∷ []) ∷ [] } ∷ []; threshold = 2 }

abbrev relayer : Relayer
relayer = record { gate = record { peers = []; threshold = 1 }; store = none; peerstore = [] }
