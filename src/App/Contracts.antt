-- ===== src/App/Contracts.antt =====
-- The first loop of `Run` over the chains: the contracts and the tokens of all chains, which the handlers
-- of every chain are given. `panicOnError` and `panic` end the program.
use sprinter_signing.Base.{
  ℕ, Bool, false, not, Option, none, some, List, [], ◌∷◌, if◌then◌else◌, Result, ok, err, ◌>>=◌,
  ◌>>◌, guard, or_fail,
}
use sprinter_signing.Base.Text.{Text, text_eq, bytes}
use sprinter_signing.Base.Dict.{Dict, insert, nat_key}
use sprinter_signing.Chains.Tokens.{Address, TokenConfig, TokenStore}
use sprinter_signing.Config.Evm.{EvmConfig, ChainConfigError}

-- Why `Run` panics.
pub data Panic : Type 0 where
  unknown_type : Option Text → Panic
  no_client no_pricer no_solver no_latest_block : Panic
  nil_id : Panic

-- An entry of the configuration: its type, and what `NewEVMConfig` makes of it.
pub record Entry : Type 0 where
  pub chain_type : Option Text
  pub evm_config : Result ChainConfigError EvmConfig

abbrev pub evm_type : Text
evm_type = bytes "evm"

-- `switch chainConfig["type"]`
abbrev pub is_evm : Option Text → Bool
is_evm none = false
is_evm (some t) = text_eq t evm_type

abbrev pub is_set : Text → Bool
is_set t = not (text_eq t [])

pub record Contracts : Type 0 where
  pub across_pools : Dict ℕ Address
  pub lifi_output_settlers : Dict ℕ Address
  pub repayer_addresses : Dict ℕ Address
  pub hub_pool : Option (Address × Dict Text TokenConfig)
  pub tokens : TokenStore

abbrev pub no_contracts : Contracts
no_contracts = record {
  across_pools = [];
  lifi_output_settlers = [];
  repayer_addresses = [];
  hub_pool = none;
  tokens = [];
}

module _ (hex_to_address : Text → Address) (new_client : Text → Bool) where
  abbrev pub set_contract : Text → ℕ → Dict ℕ Address → Dict ℕ Address
  set_contract t n m = if is_set t then insert n (hex_to_address t) m else m

  -- The case of an EVM chain.
  unfoldable pub add_contracts : ℕ → EvmConfig → Contracts → Contracts
  add_contracts n c s = record {
    across_pools = set_contract c.across_pool n s.across_pools;
    lifi_output_settlers = set_contract c.lifi_output_settler n s.lifi_output_settlers;
    repayer_addresses = set_contract c.repayer n s.repayer_addresses;
    hub_pool =
        if is_set c.across_hub_pool
        then some (hex_to_address c.across_hub_pool, c.tokens)
        else s.hub_pool;
    tokens = insert n c.tokens s.tokens;
  }

  -- A chain whose configuration is refused is skipped; its client is made first of all.
  abbrev pub contracts_step : Result ChainConfigError EvmConfig → Contracts → Result Panic Contracts
  contracts_step (err e) s = ok s
  contracts_step (ok c) s = do
    guard (new_client c.general.endpoint) no_client
    n ← or_fail c.general.id nil_id
    ok (add_contracts n c s)

  unfoldable pub contracts_of : List Entry → Contracts → Result Panic Contracts
  unfolding add_contracts
  contracts_of [] s = ok s
  contracts_of (e ∷ entries) s = do
    guard (is_evm e.chain_type) (unknown_type e.chain_type)
    s ← contracts_step e.evm_config s
    contracts_of entries s
