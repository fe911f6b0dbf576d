-- ===== src/Examples/Registration.antt =====
-- The configuration of one chain, and its registration.
use sprinter_signing.Base.{
  ℕ, ◌||◌, ◌≡◌, refl, true, false, none, some, List, [], ◌∷◌, arith, ok, contains, length,
  if◌then◌else◌, ◌==◌,
}
use sprinter_signing.Base.Dict.{lookup, nat_key}
use sprinter_signing.Base.Int.{pos}
use sprinter_signing.Base.Text.{text_eq, text_key, decimal}
use sprinter_signing.Chains.Lighter.{LighterData}
use sprinter_signing.Chains.LifiEscrow.{LifiEscrowData}
use sprinter_signing.Chains.SprinterCredit.{SprinterCreditData}
use sprinter_signing.Config.Evm.{
  RawEvmConfig, EvmConfig, SolverChain, SolverConfig, caip, contracts_of, new_evm_config,
}
use sprinter_signing.Config.Evm
use sprinter_signing.Config.Evm.Lookups.{IsConfigOf, new_evm_config_lem}
use sprinter_signing.Config.Lighter.{LighterConfig}
use sprinter_signing.Api.Signing.{AcrossRequest, across, lifi_escrow, lighter, sprinter_credit}
use sprinter_signing.App.Contracts.{Entry, is_set, no_contracts, evm_type}
use sprinter_signing.App.Domains.{
  across_handler, lifi_escrow_handler, sprinter_credit_handler, Chains, Calls, register_chains,
  register_chain, register_step, register_lighter, evm_chain, handlers_of, start_block,
}
use sprinter_signing.App.Delivery.{find_handler, handlers_in, register_chains_lem}

abbrev raw_chain : RawEvmConfig
raw_chain = record {
  general = record {
    name = 1 ∷ [];
    id = some 7;
    endpoint = 2 ∷ [];
    type = evm_type;
    blockstore_path = [];
    blocktime = 12;
    block_confirmations = 5;
    key = [];
    insecure = false;
  };
  admin = [];
  repayer = [];
  block_interval = pos 5;
  block_retry_interval = 5;
}

abbrev solver_chain : SolverChain
solver_chain = record {
  tokens = (1 ∷ [], record { address = 3 ∷ []; decimals = pos 6 }) ∷ [];
  native_token_symbol = [];
  decimals = pos 18;
  confirmations = record { max_amount_usd = pos 100; confirmations = pos 3 } ∷ [];
}

abbrev solver : SolverConfig
solver = record {
  chains = (caip 7, solver_chain) ∷ [];
  sprinter_credit = [];
  repayer = [];
  spoke_pools = (caip 7, 9 ∷ []) ∷ [];
  hub_pools = [];
  output_settler = [];
  input_settler_escrow = [];
  fast_withdrawal_contract = [];
  lighter_repayment_address = [];
}

abbrev pub evm_config : EvmConfig
evm_config = record {
  general = raw_chain.general;
  admin = [];
  across_pool = 9 ∷ [];
  across_hub_pool = [];
  lifi_output_settler = [];
  lifi_input_settler_escrow = [];
  repayer = [];
  liquidators = [];
  tokens = (1 ∷ [], record { address = 1; decimals = 6 }) ∷ [];
  confirmations_by_value = (100, 3) ∷ [];
  block_interval = pos 5;
  block_retry_interval = pos 5000000000;
}

new_evm_config_example :
    (n : ℕ) × (sc : SolverChain) × IsConfigOf length raw_chain solver evm_config n sc (1 ∷ []) 100 1
unfolding new_evm_config Evm.validate Evm.parse_flags Evm.tokens_of Evm.token_configs
    Evm.add_confirmations Evm.add_liquidators text_eq decimal
new_evm_config_example =
    new_evm_config_lem length [] raw_chain solver evm_config 100 (1 ∷ []) 1 refl

abbrev pub entries : List Entry
entries = record { chain_type = some evm_type; evm_config = ok evm_config } ∷ []

abbrev pub calls : Calls
calls = record {
  new_client = λ e. true;
  latest_block = λ e. some 1;
  start_pricer = true;
  lifi_solver_config = true;
}

abbrev pub lighter_config : LighterConfig
lighter_config = record {
  withdrawal_address = 1;
  usdc_address = 2;
  repayment_address = [];
  confirmations_by_value = [];
}

abbrev pub registered : Chains
registered = record {
  supported_chains = 7 ∷ [];
  confirmations_per_chain = (7, (100, 3) ∷ []) ∷ [];
  domains = (7, evm_chain (handlers_of calls 4 no_contracts 7 evm_config) none) ∷ [];
}

abbrev across_request : AcrossRequest
across_request = record {
  deposit_id = some (pos 3);
  nonce = pos 1;
  liquidity_pool = 42;
  caller = 43;
  borrow_amount = pos 5;
  deposit_tx_hash = 41;
  deadline = 44;
  repayment_chain_id = 1;
}

abbrev order : LifiEscrowData
order = record {
  order_id = 3 ∷ [];
  coordinator = 0;
  liquidity_pool = 42;
  caller = 43;
  deposit_tx_hash = 41 ∷ [];
  borrow_amount = pos 5;
  deadline = 44;
  nonce = pos 1;
}

abbrev credit : SprinterCreditData
credit = record {
  deposit_id = 3 ∷ [];
  borrow_amount = pos 5;
  calldata = 8 ∷ [];
  deadline = 44;
  liquidity_pool = 42;
  caller = 43;
  nonce = pos 1;
  coordinator = 0;
  token_out = [];
}

abbrev withdrawal : LighterData
withdrawal = record {
  order_hash = 3 ∷ [];
  coordinator = 0;
  liquidity_pool = 42;
  deposit_tx_hash = [];
  nonce = pos 1;
  deadline = 44;
}

register_chains_example :
    let all = register_lighter lighter_config registered in
    let handlers = handlers_in (lookup 7 all.domains) in
    (find_handler (across 7 across_request) handlers
      ≡ (if is_set evm_config.across_pool then some (across_handler 7 [] [] []) else none))
    × (find_handler (lifi_escrow 7 order) handlers ≡ (
        if is_set evm_config.lifi_output_settler
        then some (lifi_escrow_handler 7 4 [] [])
        else none))
    × (find_handler (sprinter_credit 7 credit) handlers ≡ (
        if length evm_config.liquidators == 0
        then none
        else some (sprinter_credit_handler 7 evm_config.liquidators)))
    × (find_handler (lighter 7 withdrawal) handlers ≡ none)
    × (is_set evm_config.across_pool || is_set evm_config.lifi_output_settler ≡ true
        → contains all.supported_chains 7 ≡ true)
unfolding register_chains register_step register_chain start_block text_eq
register_chains_example =
    register_chains_lem calls 4 no_contracts entries lighter_config registered 7 evm_config
      across_request order credit withdrawal refl refl (λ e. omega (arith, e))
