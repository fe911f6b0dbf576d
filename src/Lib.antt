-- ===== src/Lib.antt =====
-- A verification library for the relayer of sprinter-signing.
--
-- The relayers of a network hold shares of one key. A request for a signature arrives at the HTTP API of
-- one of them, which makes it the coordinator of the session and tells the others. Each relayer checks
-- the request against the chains on its own; then the coordinator gathers ready peers, names a subset of
-- them, and the threshold-signature protocol runs among these over a peer-to-peer network.
--
-- Files and what they are about:
--   Base: numbers, lists, results of fallible calls, maps, texts, sorting. Texts are lists of bytes.
--   Peers (tss/util, tss/ecdsa/common/utils.go, comm/elector): peer IDs are numbers that stand for their
--     printed form, 0 the empty one; peer sets; the election of a session's coordinator by hashes.
--   Comm/Messages, Comm/SubscriptionId, Comm/Subscriptions (comm/messages.go, comm/subID.go,
--     comm/p2p/subscription.go): message types, the IDs of subscriptions and the maps of channels.
--   Comm/Transport (comm/p2p, topology/topology.go): frames on a stream, receiving, sending with streams
--     that are kept, broadcasting, and the gate that the topology sets.
--   Tss/Coordinator (tss/coordinator.go): `initiate` and `waitForStart` as functions on the events that
--     their select loops receive, in order; `watchExecution`; `Execute`, and in Concurrent the steps that
--     concurrent calls of it take on the shared map.
--   Tss/Signing, Tss/Keygen, Tss/Resharing (tss/ecdsa): the processes. Tss/Quorum and Tss/Progress put a
--     signing and its coordinator together. Tss/KeyStore (keyshare/ecdsa.go): the key share
--     and its mutex.
--   Tss/Parties, Tss/Exchange, Tss/Message (tss/ecdsa/common, tss/message): the parties of the library, the
--     receivers of its messages, and a message's way from one party to another.
--   Chains (chains/, config/token.go, price/): amounts, tokens, prices, confirmations. Chains/Handler is what
--     the message handlers share: a run of a handler is the calls that it makes, in order (answers to the
--     API, the broadcast to the others, the signing that it executes), and its result. Chains/Listen: the
--     handlers on what other relayers broadcast. Chains/UnlockHash (chains/evm/signature) and
--     Chains/AllowOpen (chains/evm/message/unlock.go): the hashes that are signed, of the typed data in
--     Chains/Eip712. Chains/Listener: the events of the bridge contract that generate and refresh the key.
--   Protocol (protocol/, chains/evm/calls): deposits and orders among the logs of a transaction, the Lighter
--     API, the hub pool and the events of the admin contract.
--   Cache (cache/signature.go): the signatures by their session, against a map that never forgets.
--   Api (api/handlers): requests to messages, the numbers in their bodies, and the stream of a deposit's
--     signature from the cache.
--   Config (config/, chains/evm/config.go, chains/lighter/config.go): the relayer's configuration, its
--     merging, the environment, the watcher, and the configurations of the chains.
--   App (app/app.go): the two loops of `Run` over the chains, which register contracts, handlers and
--     supported chains, and what they mean for the messages that the API forwards. App/Routing
--     (chains/lighter/chain.go): a message's way to the handler of its chain.
--   Jobs (jobs/jobs.go, comm/health.go): the rounds of the health check. Commands (cli/peer, cli/keygen,
--     cli/topology/testTopology.go): the commands that make and show keys and test a topology.
--   Topology (topology/store.go, topology/encryption.go, cli/topology): the topology's file and its
--     encryption. Metrics (metrics/mpc.go): the times of sessions and
--     the numbers of relayers.
--   Examples: the theorems at concrete inputs.
--
-- State is a record that the operations return changed; errors are values of `Result`. A panic is a value
-- too: `none` of an index, `panics` of a request, `panicked` of a handler. What is decided by code outside
-- of the repository (libp2p, the tss library, go-ethereum's ABI and typed data, JSON, keccak256, prices,
-- the solver library, ttlcache) is an argument of the definitions that use it, and so is the order in which a
-- call ranges over a Go map. big.Ints are natural numbers where the code has checked or decoded them as such, and integers elsewhere; their conversion to uint64 keeps
-- 64 bits.
--
-- Fuel: the receiving loop has one round for each byte of the stream and one more, and gives no result where
-- it does not end within them; a round takes at least one byte. Printing a number has more rounds than the number has digits. All other recursion is
-- structural; a select loop runs over the list of the events that it receives.
--
-- Not modelled: the start of clients, hosts and stores, the flags of the commands and the HTTP server, which
-- call libraries only; the instruments of the metrics; the ABIs, which are texts for a library; and the
-- goroutines that only pass messages between channels. The order in which handlers that run side by side
-- interleave is not modelled either.
pub mod Base
pub mod Peers
pub mod Comm
pub mod Tss
pub mod Cache
pub mod Chains
pub mod Protocol
pub mod Api
pub mod Config
pub mod Metrics
pub mod Jobs
pub mod Commands
pub mod Topology
pub mod App
pub mod Examples
