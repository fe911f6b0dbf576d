-- ===== src/Examples/Relays.antt =====
-- A request of LiFi's protocol for the Lighter chain, and the rounds of the health check.
use sprinter_signing.Base.{
  ◌≡◌, ◌≢◌, ◌↔◌, refl, ap, false, some, List, [], ◌∷◌, ◌++◌, ◌+◌, arith, length, keep, ◌==◌, none,
  ℕ, Option,
}
use sprinter_signing.Base.Dict.{lookup, nat_key}
use sprinter_signing.Base.Int.{pos}
use sprinter_signing.Base.Text.{Text, text_eq, decimal}
use sprinter_signing.Chains.Lighter.{lighter_domain_id}
use sprinter_signing.Api.Numbers.{chain_id_of-decimal}
use sprinter_signing.Api.Signing.{
  SigningBody, Message, lifi_escrow, lifi_escrow_protocol, lighter_protocol, destination, validate,
  dispatch, handle_signing,
}
use sprinter_signing.App.Contracts.{no_contracts}
use sprinter_signing.App.Domains.{
  Registered, Domain, evm_chain, register_lighter, register_chains, register_step, register_chain,
  start_block,
}
use sprinter_signing.App.Delivery.{find_handler}
use sprinter_signing.App.Routing.{
  Received, Relayer, RelayerLaws, no_chain, receive_message, registered_or, wrong_data,
  handle_signing-route,
}
use sprinter_signing.Cache.Defs.{TtlCache}
use sprinter_signing.Metrics.{MpcMetrics, new_mpc_metrics}
use sprinter_signing.Comm.Transport.Send.{StreamManager}
use sprinter_signing.Comm.Transport.Broadcast.{broadcast}
use sprinter_signing.Jobs.{
  execute_comm_health_check, execute_comm_health_check-broadcast, Round, alone, failures, reached,
  start_communication_health_check_job, start_communication_health_check_job_lem,
}
use sprinter_signing.Peers.{PeerId}
use sprinter_signing.Examples.Comm.{network}
use sprinter_signing.Examples.Registration.{entries, calls, lighter_config, registered}
use sprinter_signing.Examples.Requests.{hex, body, no_error}

abbrev to_lighter_chain : SigningBody
to_lighter_chain = record body { protocol = lifi_escrow_protocol; borrow_amount = some (pos 5) }

abbrev chain_text : Text
chain_text = decimal lighter_domain_id

abbrev order : Message
order = lifi_escrow lighter_domain_id (record {
  order_id = 51 ∷ [];
  coordinator = 0;
  liquidity_pool = 7;
  caller = 7;
  deposit_tx_hash = 54 ∷ [];
  borrow_amount = pos 5;
  deadline = 44;
  nonce = pos 1;
})

abbrev no_more : List Message
no_more = []

sends_order :
    (handle_signing hex
      (register_lighter lighter_config registered).supported_chains
      chain_text
      (some to_lighter_chain)
      no_error).0
    ≡ order ∷ no_more
unfolding handle_signing validate dispatch register_lighter text_eq
sends_order = ground (arith, chain_id_of-decimal lighter_domain_id (omega arith))

-- A relayer that drops the messages to chains that it does not have.
abbrev to_chain : (Domain → Message → Received) → Message → Option Domain → Received
to_chain receive m none = no_chain
to_chain receive m (some d) = receive d m

abbrev relayer : Relayer
relayer = record {
  receive_by_evm_chain = λ rs m. registered_or (find_handler m rs);
  route = λ receive domains m. to_chain receive m (lookup (destination m) domains);
}

relayer_laws : RelayerLaws relayer
relayer_laws = record {
  dispatches = λ rs m. refl;
  routes = λ receive domains m d h. ap (to_chain receive m) h;
}

handle_signing-route_example :
    let received =
      relayer.route
        (receive_message relayer)
        (register_lighter lighter_config registered).domains
        order in
    (destination order ≢ lighter_domain_id
      → (rs : List Registered) × (block : Option ℕ) × (lookup (destination order) registered.domains
          ≡ some (evm_chain rs block))
        × (received ≡ registered_or (find_handler order rs)))
    × (destination order ≡ lighter_domain_id
        → (received ≡ wrong_data) ↔ (text_eq lifi_escrow_protocol lighter_protocol ≡ false))
unfolding register_chains register_step register_chain start_block text_eq
handle_signing-route_example =
    handle_signing-route calls 4 no_contracts relayer relayer_laws entries lighter_config registered
      hex chain_text to_lighter_chain no_error order no_more refl sends_order

-- A cache that keeps the last time that was set.
abbrev last_time : TtlCache ℕ (Option ℕ)
last_time = record {
  empty = none;
  set = λ i v s. some v;
  get = λ i s. (s, s);
  wait = λ t s. s;
  left = λ i s. 0;
}

abbrev peers : List PeerId
peers = 5 ∷ 9 ∷ 7 ∷ []

abbrev no_streams : StreamManager
no_streams = []

-- A round of the relayer 5 whose peer 9 cannot be written to.
abbrev round : Round
round = record { all = peers; checked = peers; network = network }

abbrev start : StreamManager × MpcMetrics last_time
start = (no_streams, new_mpc_metrics last_time)

start_communication_health_check_job_example :
    let before = (start_communication_health_check_job last_time 5 [] (round ∷ []) start).0 in
    let after =
      (start_communication_health_check_job last_time 5 [] ((round ∷ []) ++ round ∷ []) start).1 in
    let (sm', e, outcomes) = broadcast network alone 5 peers [] before in
    let available = length (keep (λ p. 5 == p) peers) + length (reached outcomes) in
    (after.total_relayer_count ≡ length peers)
    × (after.available_relayer_count ≡ pos available)
    × (available + length (failures outcomes) ≡ length peers)
start_communication_health_check_job_example =
    start_communication_health_check_job_lem last_time 5 [] (round ∷ []) round start refl

execute_comm_health_check-broadcast_example :
    let (sm', e, outcomes) = broadcast network alone 5 peers [] no_streams in
    execute_comm_health_check network 5 [] peers no_streams ≡ (sm', failures outcomes)
execute_comm_health_check-broadcast_example =
    execute_comm_health_check-broadcast network 5 [] peers no_streams
