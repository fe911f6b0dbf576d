-- ===== src/Config/Lighter.antt =====
-- chains/lighter/config.go: the configuration of the Lighter chain, which stands in the solver's.
use sprinter_signing.Base.{Option, none, some, List, [], Result, ok, ◌>>=◌, or_fail}
use sprinter_signing.Base.Text.{Text, bytes, text_key}
use sprinter_signing.Base.Dict.{lookup}
use sprinter_signing.Chains.Confirmations.{Buckets}
use sprinter_signing.Chains.Tokens.{Address}
use sprinter_signing.Config.Evm.{
  SolverConfirmation, SolverChain, SolverConfig, ChainConfigError, no_solver_config, no_usdc,
  no_withdrawal_address, add_confirmations,
}

pub record LighterConfig : Type 0 where
  pub withdrawal_address : Address
  pub usdc_address : Address
  pub repayment_address : Text
  pub confirmations_by_value : Buckets

abbrev pub arbitrum_caip : Text
arbitrum_caip = bytes "eip155:42161"

abbrev pub lighter_caip : Text
lighter_caip = bytes "lighter:1"

abbrev pub usdc : Text
usdc = bytes "usdc"

-- A missing chain has no confirmations.
abbrev pub confirmations_of : Option SolverChain → List SolverConfirmation
confirmations_of none = []
confirmations_of (some sc) = sc.confirmations

-- `NewLighterConfig`
unfoldable pub new_lighter_config :
    (Text → Address) → SolverConfig → Result ChainConfigError LighterConfig
unfolding add_confirmations
new_lighter_config hex_to_address solver = do
  arbitrum ← or_fail (lookup arbitrum_caip solver.chains) (no_solver_config arbitrum_caip)
  token ← or_fail (lookup usdc arbitrum.tokens) no_usdc
  withdrawal ← or_fail (lookup arbitrum_caip solver.fast_withdrawal_contract) no_withdrawal_address
  ok (record {
    withdrawal_address = hex_to_address withdrawal;
    usdc_address = hex_to_address token.address;
    repayment_address = solver.lighter_repayment_address;
    confirmations_by_value =
        add_confirmations (confirmations_of (lookup lighter_caip solver.chains)) [];
  })
