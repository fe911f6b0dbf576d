-- ===== src/Commands.antt =====
-- cli/peer/, cli/topology/testTopology.go and cli/keygen/: the commands beside `run`. The keys of libp2p
-- and of secp256k1, base64 and hex, and the libraries' part of reading a topology are parameters.
use sprinter_signing.Base.{◌≡◌, refl, Option, none, some, ◌++◌, arith, Result, ok, ◌>>=◌, or_fail}
use sprinter_signing.Base.Text.{Text, bytes}
use sprinter_signing.Peers.{PeerId}
use sprinter_signing.Comm.Transport.Gate.{
  Codec, NetworkTopology, TopologyError, network_topology, not_encrypted,
}

-- What `generateKey` and `peerInfo` use of libp2p and of base64.
pub record KeyCodec (Priv : Type 0) (Pub : Type 0) : Type 0 where
  pub marshal_private_key : Priv → Option Text
  pub unmarshal_private_key : Text → Option Priv
  pub id_from_public_key : Pub → Option PeerId
  pub id_from_private_key : Priv → Option PeerId
  pub encode_base64 : Text → Text
  pub config_decode_key : Text → Option Text

pub data KeyError : Type 0 where
  not_generated no_peer_id not_marshalled not_decoded not_unmarshalled : KeyError

-- `generateKey` of cli/peer: the identity and the private key that it prints for a pair, if there is one.
unfoldable pub generate_peer_key :
    {Priv : Type 0} {Pub : Type 0}
    → KeyCodec Priv Pub
    → Option (Priv × Pub)
    → Result KeyError (PeerId × Text)
generate_peer_key codec pair = do
  (priv, public) ← or_fail pair not_generated
  peer_id ← or_fail (codec.id_from_public_key public) no_peer_id
  marshalled ← or_fail (codec.marshal_private_key priv) not_marshalled
  ok (peer_id, codec.encode_base64 marshalled)

-- `peerInfo`: the identity that it prints for a private key.
unfoldable pub peer_info :
    {Priv : Type 0} {Pub : Type 0} → KeyCodec Priv Pub → Text → Result KeyError PeerId
peer_info codec private_key = do
  priv_bytes ← or_fail (codec.config_decode_key private_key) not_decoded
  priv ← or_fail (codec.unmarshal_private_key priv_bytes) not_unmarshalled
  or_fail (codec.id_from_private_key priv) no_peer_id

-- The private key that is printed for a new pair has the identity that is printed with it.
pub peer_info-generate_peer_key :
    {Priv : Type 0} {Pub : Type 0} (codec : KeyCodec Priv Pub) (priv : Priv) (public : Pub)
    (peer_id : PeerId) (private_key : Text)
    → ((b : Text) → codec.config_decode_key (codec.encode_base64 b) ≡ some b)
    → ((b : Text)
        → codec.marshal_private_key priv ≡ some b
        → codec.unmarshal_private_key b ≡ some priv)
    → codec.id_from_private_key priv ≡ codec.id_from_public_key public
    → generate_peer_key codec (some (priv, public)) ≡ ok (peer_id, private_key)
    → peer_info codec private_key ≡ ok peer_id
unfolding generate_peer_key peer_info
peer_info-generate_peer_key codec priv public peer_id private_key decoded unmarshalled same h =
    step (codec.id_from_public_key public) (codec.marshal_private_key priv) refl refl
  where
    step :
        (i : Option PeerId) (m : Option Text)
        → codec.id_from_public_key public ≡ i
        → codec.marshal_private_key priv ≡ m
        → peer_info codec private_key ≡ ok peer_id
    step none m e f = absurd (ground (arith, h, e))
    step (some i) none e f = absurd (ground (arith, h, e, f))
    step (some i) (some b) e f = ground (arith, h, e, f, same, decoded b, unmarshalled b f)

-- `generateKey` of cli/keygen: the two lines that it prints for a pair in bytes.
unfoldable pub generate_signing_key : (Text → Text) → Option (Text × Text) → Option (Text × Text)
generate_signing_key encode_hex none = none
generate_signing_key encode_hex (some (public, kp)) =
    some (bytes "Public key: " ++ public, bytes "Private key: 0x" ++ encode_hex kp)

-- `testTopology`: the topology that a body has for a key that AES accepts, and for a hash, or for the
-- empty one.
unfoldable pub test_topology :
    Option Codec → Option Text → Text → Result TopologyError NetworkTopology
unfolding network_topology
test_topology codec body hash = do nt ← or_fail codec not_encrypted; network_topology nt body hash
