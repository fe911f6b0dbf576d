-- ===== src/Comm/Transport/Gate.antt =====
-- topology/topology.go and comm/p2p/gater.go: the peers that the topology names, and no other, may
-- connect. Parsing a multiaddress, hex, SHA-256, AES and JSON are parameters; so is `strconv.ParseInt`
-- in base 0, whose result here is the integer that the text writes, of any size.
use sprinter_signing.Base.{
  ℕ, ◌<◌, ◌^◌, ◌/◌, ◌≡◌, refl, Bool, true, false, not, ◌||◌, Option, none, some, List, [], ◌∷◌,
  arith, ◌==◌, if◌then◌else◌, ltb, contains, map, Result, ok, ◌>>=◌, ◌>>◌, guard, or_fail,
}
use sprinter_signing.Base.Int.{ℤ, pos, negsuc, is_lt_ℕ, magnitude}
use sprinter_signing.Base.Text.{Text, text_eq, text_eq_iff}
use sprinter_signing.Peers.{PeerId}

pub record AddrInfo : Type 0 where
  pub id : PeerId
  pub addrs : List Text

pub record NetworkTopology : Type 0 where
  pub peers : List AddrInfo
  pub threshold : ℕ

pub record RawTopology : Type 0 where
  pub peer_addresses : List Text
  pub raw_threshold : Text

pub data TopologyError : Type 0 where
  not_fetched not_hex hash_mismatch not_json not_encrypted not_stored : TopologyError
  invalid_peer_address : Text → TopologyError
  unparsed_threshold threshold_too_small : TopologyError

-- `IsAllowedPeer`
unfoldable pub is_allowed_peer : List AddrInfo → PeerId → Bool
is_allowed_peer [] p = false
is_allowed_peer (a ∷ rest) p =
    let among_rest = is_allowed_peer rest p in if a.id == p then true else among_rest

-- The gate: `InterceptPeerDial` and `InterceptSecured` ask the topology, the others allow all.
pub data Intercept : Type 0 where
  peer_dial secured : PeerId → Intercept
  addr_dial accept upgraded : Intercept

unfoldable pub intercept : NetworkTopology → Intercept → Bool
intercept topology (peer_dial p) = is_allowed_peer topology.peers p
intercept topology (secured p) = is_allowed_peer topology.peers p
intercept topology addr_dial = true
intercept topology accept = true
intercept topology upgraded = true

-- `SetTopology`
unfoldable pub set_topology : NetworkTopology → NetworkTopology → NetworkTopology
set_topology new topology = new

-- The libraries' part of reading a topology.
pub record Codec : Type 0 where
  pub addr_info_from_string : Text → Option AddrInfo
  pub parse_int : Text → Option ℤ
  pub decode_hex : Text → Option Text
  pub encode_hex : Text → Text
  pub sha256 : Text → Text
  pub decrypt : Text → Text
  pub unmarshal : Text → Option RawTopology

abbrev pub in_range : ℕ → ℤ → Bool
in_range bits (pos n) = ltb n (2 ^ bits / 2)
in_range bits (negsuc n) = ltb n (2 ^ bits / 2)

-- `strconv.ParseInt(s, 0, bits)`: the error ErrRange outside of the signed range.
unfoldable pub parse_int_bits : Codec → ℕ → Text → Option ℤ
parse_int_bits codec bits s = elim (codec.parse_int s) [
  | none ↦ none
  | some z ↦ if in_range bits z then some z else none
]

unfoldable pub addr_infos : Codec → List Text → Result TopologyError (List AddrInfo)
addr_infos codec [] = ok []
addr_infos codec (a ∷ rest) = do
  info ← or_fail (codec.addr_info_from_string a) (invalid_peer_address a)
  infos ← addr_infos codec rest
  ok (info ∷ infos)

-- `ProcessRawTopology`. An `int` has 64 bits.
unfoldable pub process_raw_topology : Codec → RawTopology → Result TopologyError NetworkTopology
unfolding addr_infos parse_int_bits
process_raw_topology codec raw = do
  peers ← addr_infos codec raw.peer_addresses
  threshold ← or_fail (parse_int_bits codec 64 raw.raw_threshold) unparsed_threshold
  guard (not (is_lt_ℕ threshold 1)) threshold_too_small
  ok (record { peers = peers; threshold = magnitude threshold })

-- `strings.TrimSuffix(body, "\n")`
abbrev pub trim_suffix : Text → Text
trim_suffix [] = []
trim_suffix (c ∷ []) = if c == 10 then [] else c ∷ []
trim_suffix (c ∷ d ∷ cs) = c ∷ trim_suffix (d ∷ cs)

-- `NetworkTopology(hash)` on the body that the fetcher got; the empty hash is not checked.
unfoldable pub network_topology : Codec → Option Text → Text → Result TopologyError NetworkTopology
unfolding process_raw_topology
network_topology codec body hash = do
  response ← or_fail body not_fetched
  ct ← or_fail (codec.decode_hex (trim_suffix response)) not_hex
  guard (text_eq hash [] || text_eq (codec.encode_hex (codec.sha256 ct)) hash) hash_mismatch
  raw ← or_fail (codec.unmarshal (codec.decrypt ct)) not_json
  process_raw_topology codec raw

is_allowed_peer_lem :
    (infos : List AddrInfo) (p : PeerId)
    → is_allowed_peer infos p ≡ contains (map (λ a. a.id) infos) p
unfolding is_allowed_peer
is_allowed_peer_lem [] p = refl
is_allowed_peer_lem (a ∷ rest) p = ground (arith, is_allowed_peer_lem rest p)

-- A topology that is accepted for a hash that is not empty has that hash, and its threshold is at least 1.
-- A gate that it is set on lets a peer dial, and lets it pass the handshake, exactly if the topology
-- lists it.
pub network_topology_lem :
    (codec : Codec) (response hash : Text) (topology old : NetworkTopology) (p : PeerId)
    → network_topology codec (some response) hash ≡ ok topology
    → (0 < topology.threshold)
      × (text_eq hash [] ≡ false
          → (ct : Text) → codec.decode_hex (trim_suffix response) ≡ some ct
          → codec.encode_hex (codec.sha256 ct) ≡ hash)
      × (intercept (set_topology topology old) (peer_dial p)
          ≡ contains (map (λ a. a.id) topology.peers) p)
      × (intercept (set_topology topology old) (secured p)
          ≡ contains (map (λ a. a.id) topology.peers) p)
unfolding network_topology process_raw_topology intercept set_topology
network_topology_lem codec response hash topology old p h = (
  ground (arith, h),
  λ ne ct d. ground (arith, h, ne, d, text_eq_iff (codec.encode_hex (codec.sha256 ct)) hash),
  is_allowed_peer_lem topology.peers p,
  is_allowed_peer_lem topology.peers p,
)
