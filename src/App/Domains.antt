-- ===== src/App/Domains.antt =====
-- The second loop of `Run` over the chains, and the Lighter chain after it: the handlers of each chain's
-- messages, the chains that the API supports and their confirmations. The clients and the solver library
-- are parameters.
use sprinter_signing.Base.{
  ℕ, Bool, not, ◌||◌, Option, none, some, List, [], ◌∷◌, ◌++◌, if◌then◌else◌, Result, ok, err,
  ◌>>=◌, ◌>>◌, guard, or_fail, length, ◌==◌,
}
use sprinter_signing.Base.Text.{Text}
use sprinter_signing.Base.Dict.{Dict, insert, nat_key}
use sprinter_signing.Chains.Confirmations.{Buckets}
use sprinter_signing.Chains.Tokens.{Address, TokenStore}
use sprinter_signing.Chains.Lighter.{lighter_domain_id}
use sprinter_signing.Config.Evm.{EvmConfig, ChainConfigError}
use sprinter_signing.Config.Lighter.{LighterConfig}
use sprinter_signing.App.Contracts.{
  Panic, unknown_type, no_client, no_pricer, no_solver, no_latest_block, nil_id, Entry, is_evm,
  is_set, Contracts,
}

-- A message handler with the arguments of its constructor that depend on the configuration.
pub data Registered : Type 0 where
  across_handler : ℕ → TokenStore → Dict ℕ Address → Dict ℕ Address → Registered
  lifi_escrow_handler : ℕ → Address → Dict ℕ Address → TokenStore → Registered
  sprinter_credit_handler : ℕ → Dict Address Address → Registered
  lifi_unlock_handler : ℕ → Dict ℕ Address → Registered

-- A chain of the relayer: an EVM chain with its registered handlers, which listens for TSS events from a
-- block on if it has an admin contract, or the Lighter chain.
pub data Domain : Type 0 where
  evm_chain : List Registered → Option ℕ → Domain
  lighter_chain : LighterConfig → Domain

pub record Chains : Type 0 where
  pub supported_chains : List ℕ
  pub confirmations_per_chain : Dict ℕ Buckets
  pub domains : Dict ℕ Domain

abbrev pub no_chains : Chains
no_chains = record { supported_chains = []; confirmations_per_chain = []; domains = [] }

-- Calls that may fail: `NewEVMClient` and `LatestBlock` for an endpoint, the start of the pricer, and the
-- solver's configuration for LiFi.
pub record Calls : Type 0 where
  pub new_client : Text → Bool
  pub latest_block : Text → Option ℕ
  pub start_pricer : Bool
  pub lifi_solver_config : Bool

module _ (calls : Calls) (mpc_address : Address) (contracts : Contracts) where
  -- Across and LiFi make a chain a supported one.
  abbrev pub is_supported : EvmConfig → Bool
  is_supported c = is_set c.across_pool || is_set c.lifi_output_settler

  unfoldable pub handlers_of : ℕ → EvmConfig → List Registered
  handlers_of n c =
      (if is_set c.across_pool
        then across_handler n contracts.tokens contracts.across_pools contracts.repayer_addresses
          ∷ []
        else [])
      ++ (if is_set c.lifi_output_settler
          then lifi_escrow_handler n mpc_address contracts.lifi_output_settlers contracts.tokens
            ∷ []
          else [])
      ++ (if length c.liquidators == 0 then [] else sprinter_credit_handler n c.liquidators ∷ [])
      ++ lifi_unlock_handler n contracts.repayer_addresses ∷ []

  -- The block from which a chain with an admin contract is listened to.
  unfoldable pub start_block : EvmConfig → Result Panic (Option ℕ)
  start_block c =
      if is_set c.admin
      then elim (calls.latest_block c.general.endpoint) [
        | none ↦ err no_latest_block
        | some block ↦ ok (some block)
      ]
      else ok none

  abbrev pub add_domain : ℕ → EvmConfig → Option ℕ → Chains → Chains
  add_domain n c block s = record {
    supported_chains = if is_supported c then n ∷ s.supported_chains else s.supported_chains;
    confirmations_per_chain =
        if is_supported c
        then insert n c.confirmations_by_value s.confirmations_per_chain
        else s.confirmations_per_chain;
    domains = insert n (evm_chain (handlers_of n c) block) s.domains;
  }

  -- The case of an EVM chain.
  unfoldable pub register_chain : EvmConfig → Chains → Result Panic Chains
  unfolding handlers_of start_block
  register_chain c s = do
    guard (calls.new_client c.general.endpoint) no_client
    n ← or_fail c.general.id nil_id
    guard (not (is_set c.lifi_output_settler) || calls.start_pricer) no_pricer
    guard (not (is_set c.lifi_output_settler) || calls.lifi_solver_config) no_solver
    block ← start_block c
    ok (add_domain n c block s)

  unfoldable pub register_step : Result ChainConfigError EvmConfig → Chains → Result Panic Chains
  unfolding register_chain
  register_step (err e) s = ok s
  register_step (ok c) s = register_chain c s

  unfoldable pub register_chains : List Entry → Chains → Result Panic Chains
  unfolding register_step
  register_chains [] s = ok s
  register_chains (e ∷ entries) s = do
    guard (is_evm e.chain_type) (unknown_type e.chain_type)
    s ← register_step e.evm_config s
    register_chains entries s

-- The Lighter chain is always there and supported.
unfoldable pub register_lighter : LighterConfig → Chains → Chains
register_lighter c s = record s {
  supported_chains = lighter_domain_id ∷ s.supported_chains;
  domains = insert lighter_domain_id (lighter_chain c) s.domains;
}
