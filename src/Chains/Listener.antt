-- ===== src/Chains/Listener.antt =====
-- chains/evm/listener/tss.go, and `LoadPeers` of comm/p2p/host.go: what a relayer does on the events of the
-- bridge contract that start a key generation and that refresh the topology. Fetching the events is a
-- parameter.
use sprinter_signing.Base.{
  ℕ, ◌<◌, ◌≡◌, ◌||◌, Bool, true, false, not, Option, none, some, List, [], ◌∷◌, ◌++◌, ◌==◌,
  if◌then◌else◌, Result, ok, err, contains,
}
use sprinter_signing.Base.Text.{Text, bytes, decimal}
use sprinter_signing.Peers.{PeerId}
use sprinter_signing.Tss.Process.{TssError, Keyshare}
use sprinter_signing.Comm.Transport.Gate.{
  Codec, AddrInfo, NetworkTopology, TopologyError, network_topology, set_topology, intercept,
  secured,
}

-- What the events change: the gate's topology, the file of the topology store, and the host's peerstore.
pub record Relayer : Type 0 where
  pub gate : NetworkTopology
  pub store : Option NetworkTopology
  pub peerstore : List PeerId

-- The process that is executed, with its session and threshold.
pub data Execution : Type 0 where
  keygen : Text → ℕ → Execution
  resharing : Text → ℕ → Execution

pub data ListenerError : Type 0 where
  events_not_fetched : ListenerError

abbrev pub has_key : Result TssError Keyshare → Bool
has_key (err e) = false
has_key (ok k) = not (k.threshold == 0)

-- `KeygenEventHandler.HandleEvents`: a relayer with a key share ignores the events; of several events the
-- first counts.
unfoldable pub handle_keygen_events :
    Result TssError Keyshare
    → ℕ
    → Result ListenerError (List ℕ)
    → Result ListenerError (Option Execution)
handle_keygen_events key threshold events = if has_key key then ok none else elim events [
  | err e ↦ err e
  | ok [] ↦ ok none
  | ok (block ∷ rest) ↦ ok (some (keygen (bytes "keygen-" ++ decimal block) threshold))
]

abbrev pub is_empty : List Text → Bool
is_empty [] = true
is_empty (a ∷ rest) = false

abbrev add_peer : AddrInfo → Option (List PeerId) → Option (List PeerId)
add_peer a none = none
add_peer a (some peers) = if is_empty a.addrs then none else some (a.id ∷ peers)

-- `LoadPeers`: the peerstore is cleared and filled. The first address of a peer without any panics: `none`.
unfoldable pub load_peers : List AddrInfo → Option (List PeerId)
load_peers [] = some []
load_peers (a ∷ infos) = add_peer a (load_peers infos)

abbrev pub refreshed :
    ℕ → NetworkTopology → Option (List PeerId) → Option (Relayer × Option Execution)
refreshed block topology none = none
refreshed block topology (some peers) = some (
  record { gate = topology; store = some topology; peerstore = peers },
  some (resharing (bytes "resharing-" ++ decimal block) topology.threshold),
)

-- What becomes of `StoreTopology`: the file is not opened, it is emptied and then not written whole, or it
-- is written.
pub data Stored : Type 0 where
  not_opened not_written written : Stored

-- The part of `RefreshEventHandler.HandleEvents` after the topology is fetched: it is stored first, and
-- where that fails nothing else changes. A file that is not written whole does not read back. `none` is a
-- panic.
unfoldable pub refresh :
    Stored
    → ℕ
    → Relayer
    → Result TopologyError NetworkTopology
    → Option (Relayer × Option Execution)
unfolding load_peers set_topology
refresh stored block r (err e) = some (r, none)
refresh not_opened block r (ok topology) = some (r, none)
refresh not_written block r (ok topology) = some (record r { store = none }, none)
refresh written block r (ok topology) =
    refreshed block (set_topology topology r.gate) (load_peers topology.peers)

-- `RefreshEventHandler.HandleEvents`, on the event with its hash and block if there is one; `body` is what
-- the topology's URL gives, and `stored` what becomes of storing the topology.
unfoldable pub handle_refresh_events :
    Codec
    → Option Text
    → Stored
    → Result ListenerError (Option (Text × ℕ))
    → Relayer
    → Option (Relayer × Option Execution)
unfolding network_topology refresh
handle_refresh_events codec body stored (err e) r = some (r, none)
handle_refresh_events codec body stored (ok none) r = some (r, none)
handle_refresh_events codec body stored (ok (some (hash, block))) r =
    refresh stored block r (network_topology codec body hash)

-- Some peer has no address.
abbrev pub lacks_address : List AddrInfo → Bool
lacks_address [] = false
lacks_address (a ∷ infos) = is_empty a.addrs || lacks_address infos

-- What a relayer is after a refresh to a topology.
abbrev pub IsRefreshed : NetworkTopology → ℕ → Option (Relayer × Option Execution) → Type 0
IsRefreshed topology block none = lacks_address topology.peers ≡ true
IsRefreshed topology block (some (r, e)) =
    (r.gate ≡ topology)
    × (r.store ≡ some topology)
    × ((p : PeerId) → intercept r.gate (secured p) ≡ contains r.peerstore p)
    × (e ≡ some (resharing (bytes "resharing-" ++ decimal block) topology.threshold))
    × (0 < topology.threshold)

-- What a relayer is after a refresh event, for what fetching the topology and storing it come to.
abbrev pub AfterRefresh :
    Relayer
    → ℕ
    → Result TopologyError NetworkTopology
    → Stored
    → Option (Relayer × Option Execution)
    → Type 0
AfterRefresh r block (err e) stored after = after ≡ some (r, none)
AfterRefresh r block (ok topology) not_opened after = after ≡ some (r, none)
AfterRefresh r block (ok topology) not_written after =
    after ≡ some (record { gate = r.gate; store = none; peerstore = r.peerstore }, none)
AfterRefresh r block (ok topology) written after = IsRefreshed topology block after
