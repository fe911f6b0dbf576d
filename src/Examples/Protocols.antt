-- ===== src/Examples/Protocols.antt =====
-- Messages between relayers, a resharing and a published topology.
use sprinter_signing.Base.{
  ℕ, ◌≡◌, ◌≢◌, refl, Bool, true, false, Option, none, some, [], ◌∷◌, ◌++◌, arith, ok, err,
  if◌then◌else◌, replicate, ap,
}
use sprinter_signing.Base.Dict.{Dict, lookup, nat_key}
use sprinter_signing.Base.Int.{pos}
use sprinter_signing.Base.Text.{Text, text_eq}
use sprinter_signing.Peers.{PeerId}
use sprinter_signing.Comm.Messages.{across_msg}
use sprinter_signing.Comm.Transport.Frames.{newline}
use sprinter_signing.Comm.Transport.Receive.{
  WireMessage, process_messages_fuel, process_messages_from_stream,
}
use sprinter_signing.Comm.Transport.Ending.{process_messages_from_stream-ends}
use sprinter_signing.Comm.Transport.Gate.{
  Codec, RawTopology, network_topology, process_raw_topology,
}
use sprinter_signing.Tss.Process.{TssError, failure, Keyshare}
use sprinter_signing.Tss.Message.{Json, TssMessage}
use sprinter_signing.Tss.Parties.{Party, ids}
use sprinter_signing.Tss.Exchange.{
  Outgoing, process_outbound_message, process_inbound_message, exchange_lem,
}
use sprinter_signing.Tss.Resharing.{
  Resharing, ReshareEnv, returned, panicked, run, run_completes, SortsById,
}
use sprinter_signing.Topology.{
  decrypt, encrypt_topology, encrypt, encrypt_topology-network_topology,
}

abbrev flag : Bool → ℕ
flag true = 1
flag false = 0

abbrev json : Json TssMessage
json = record {
  marshal = λ m. ok (flag m.is_broadcast ∷ m.msg_bytes);
  unmarshal = λ t. elim t [
    | [] ↦ err (failure 0)
    | b ∷ bs ↦ ok (record { msg_bytes = bs; is_broadcast = text_eq (b ∷ []) (1 ∷ []) })
  ];
}

json_inverse : (m : TssMessage) (t : Text) → json.marshal m ≡ ok t → json.unmarshal t ≡ ok m
unfolding text_eq
json_inverse m t h = step m.is_broadcast refl
  where
    step : (b : Bool) → m.is_broadcast ≡ b → json.unmarshal t ≡ ok m
    step true e = ground (arith, h, e)
    step false e = ground (arith, h, e)

abbrev store : Dict PeerId Party
store = (5, record { id = 5; index = 0 }) ∷ []

abbrev outgoing : Outgoing
outgoing = record {
  wire_bytes = ok (8 ∷ [], false);
  is_broadcast = false;
  to = record { id = 7; index = 1 } ∷ [];
}

exchange_example :
    (process_outbound_message json (λ p. some p) (5 ∷ 7 ∷ []) outgoing
      ≡ ok (if outgoing.is_broadcast then 5 ∷ 7 ∷ [] else ids outgoing.to, 0 ∷ 8 ∷ []))
    × (process_inbound_message json store 5 (0 ∷ 8 ∷ [])
        ≡ ok (record { msg_bytes = 8 ∷ []; sender = lookup 5 store; is_broadcast = false }))
exchange_example =
    exchange_lem json (λ p. some p) (5 ∷ 7 ∷ []) outgoing (8 ∷ []) (0 ∷ 8 ∷ []) false store 5
      json_inverse (λ p. refl) refl refl

abbrev wire : Text → Option WireMessage
wire [] = none
wire (n ∷ rest) = some (record { message_type = across_msg; session_id = []; payload = n ∷ [] })

process_messages_from_stream-ends_example :
    process_messages_fuel (λ m. m) wire [] 5 9 (1 ∷ newline ∷ 2 ∷ newline ∷ [])
    ≡ some (process_messages_from_stream (λ m. m) wire [] 5 (1 ∷ newline ∷ 2 ∷ newline ∷ []))
process_messages_from_stream-ends_example =
    process_messages_from_stream-ends (λ m. m) wire [] 5 9 (1 ∷ newline ∷ 2 ∷ newline ∷ [])
      (omega arith)

abbrev resharing : Resharing
resharing = record {
  host_id = 5;
  peerstore = 5 ∷ 7 ∷ 8 ∷ [];
  session_id = 1 ∷ [];
  started = false;
  peers = 5 ∷ 7 ∷ 8 ∷ [];
  key = record { key = 1; threshold = 1; peers = 9 ∷ 7 ∷ 5 ∷ [] };
  new_threshold = 1;
}

abbrev reshare_env : ReshareEnv
reshare_env = record {
  decode = λ t. some (record { old_threshold = pos 1; old_subset = 7 ∷ 5 ∷ [] });
  rank = λ p. p;
  sort_party_ids = λ ps. ps;
  parameters_error = λ old new own t n. none;
  party_error = none;
  start_error = none;
  end = some 99;
  store_error = none;
}

as_they_are : SortsById (λ ps. ps)
as_they_are = record { same_members = λ ps a. refl; still_distinct = λ ps d. d }

run_completes_example :
    (run reshare_env resharing [] ≢ panicked)
    × ((r' : Resharing) (subscribed : Bool) (k : Keyshare) (e : Option TssError)
        → run reshare_env resharing [] ≡ returned r' subscribed (some k) e
        → (resharing.started ≡ false)
          × (subscribed ≡ true)
          × (e ≡ none)
          × (k.threshold ≡ resharing.new_threshold)
          × (k.peers ≡ resharing.peers))
run_completes_example =
    run_completes reshare_env resharing [] as_they_are (omega arith) (ground arith) (ground arith)

-- A key stream of zeros, hex that is the bytes, and a file that is the threshold.
abbrev no_stream : Text → Text → Text
no_stream iv t = t

abbrev raw_topology : RawTopology
raw_topology = record { peer_addresses = []; raw_threshold = [] }

abbrev plain_of : Option Text → Text
plain_of none = []
plain_of (some t) = t

abbrev codec : Codec
codec = record {
  addr_info_from_string = λ a. none;
  parse_int = λ t. some (pos 2);
  decode_hex = λ t. some t;
  encode_hex = λ t. t;
  sha256 = λ t. t;
  decrypt = λ ct. plain_of (decrypt no_stream ct);
  unmarshal = λ t. some raw_topology;
}

abbrev iv : Text
iv = replicate 16 3

encrypt_topology-network_topology_example :
    network_topology codec (some ((iv ++ 1 ∷ []) ++ 10 ∷ [])) (iv ++ 1 ∷ [])
    ≡ process_raw_topology codec raw_topology
unfolding encrypt_topology encrypt
encrypt_topology-network_topology_example =
    encrypt_topology-network_topology codec no_stream iv (1 ∷ []) (iv ++ 1 ∷ []) (iv ++ 1 ∷ [])
      raw_topology (λ v t. refl) (λ t. refl) (λ ct plain e. ap plain_of e) refl refl refl
