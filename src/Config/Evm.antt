-- ===== src/Config/Evm.antt =====
-- config/chain/config.go and chains/evm/config.go: the configuration of an EVM chain, from its entry in
-- the relayer's configuration and from the solver's. mapstructure, defaults and hex are parameters.
pub mod Lookups
use sprinter_signing.Base.{
  ℕ, ◌*◌, ◌^◌, ◌<◌, ◌≡◌, ◌≢◌, refl, Bool, true, false, not, Option, none, some, List, [], ◌∷◌, ◌++◌,
  arith, if◌then◌else◌, Result, ok, err, ◌>>=◌, ◌>>◌, guard, or_fail,
}
use sprinter_signing.Base.Int.{ℤ, pos, negsuc, to_uint, to_int64}
use sprinter_signing.Base.Text.{Text, text_eq, text_eq_iff, bytes, decimal, text_key}
use sprinter_signing.Base.Dict.{Dict, lookup, insert, lookup-insert, nat_key}
use sprinter_signing.Chains.Confirmations.{Buckets}
use sprinter_signing.Chains.Tokens.{Address, TokenConfig}

pub record GeneralChainConfig : Type 0 where
  pub name : Text
  pub id : Option ℕ
  pub endpoint : Text
  pub type : Text
  pub blockstore_path : Text
  pub blocktime : ℕ
  pub block_confirmations : ℕ
  pub key : Text
  pub insecure : Bool

pub record RawEvmConfig : Type 0 where
  pub general : GeneralChainConfig
  pub admin : Text
  pub repayer : Text
  pub block_interval : ℤ
  pub block_retry_interval : ℕ

pub record EvmConfig : Type 0 where
  pub general : GeneralChainConfig
  pub admin : Text
  pub across_pool : Text
  pub across_hub_pool : Text
  pub lifi_output_settler : Text
  pub lifi_input_settler_escrow : Text
  pub repayer : Text
  pub liquidators : Dict Address Address
  pub tokens : Dict Text TokenConfig
  pub confirmations_by_value : Buckets
  pub block_interval : ℤ
  pub block_retry_interval : ℤ

-- What the code reads of the solver's configuration.
pub record SolverToken : Type 0 where
  pub address : Text
  pub decimals : ℤ

pub record SolverConfirmation : Type 0 where
  pub max_amount_usd : ℤ
  pub confirmations : ℤ

pub record SolverChain : Type 0 where
  pub tokens : Dict Text SolverToken
  pub native_token_symbol : Text
  pub decimals : ℤ
  pub confirmations : List SolverConfirmation

pub record CreditContract : Type 0 where
  pub token : Text
  pub liquidator : Text

pub record SolverConfig : Type 0 where
  pub chains : Dict Text SolverChain
  pub sprinter_credit : Dict Text (List CreditContract)
  pub repayer : Dict Text Text
  pub spoke_pools : Dict Text Text
  pub hub_pools : Dict Text Text
  pub output_settler : Text
  pub input_settler_escrow : Text
  pub fast_withdrawal_contract : Dict Text Text
  pub lighter_repayment_address : Text

pub data ChainConfigError : Type 0 where
  not_decoded : ChainConfigError
  empty_id empty_endpoint empty_name : ChainConfigError
  no_solver_config : Text → ChainConfigError
  no_usdc no_withdrawal_address : ChainConfigError

-- A missing key of a map of strings.
abbrev pub or_empty : Option Text → Text
or_empty none = []
or_empty (some t) = t

-- `GeneralChainConfig.Validate`, which returns the ID that it has checked.
unfoldable pub validate : GeneralChainConfig → Result ChainConfigError ℕ
validate c = do
  id ← or_fail c.id empty_id
  guard (not (text_eq c.endpoint [])) empty_endpoint
  guard (not (text_eq c.name [])) empty_name
  ok id

-- `ParseFlags` for the value of the flag.
unfoldable pub parse_flags : Text → GeneralChainConfig → GeneralChainConfig
parse_flags flag c = if text_eq flag [] then c else record c { blockstore_path = flag }

abbrev pub eth_symbol : Text
eth_symbol = bytes "ETH"

-- `fmt.Sprintf("eip155:%d", *c.Id)`
abbrev pub caip : ℕ → Text
caip id = bytes "eip155:" ++ decimal id

-- The loop that fills the map of confirmations: a later entry replaces an earlier.
unfoldable pub add_confirmations : List SolverConfirmation → Buckets → Buckets
add_confirmations [] m = m
add_confirmations (c ∷ cs) m =
    add_confirmations cs (insert (to_uint 64 c.max_amount_usd) (to_uint 64 c.confirmations) m)

module _ (hex_to_address : Text → Address) where
  abbrev pub token_config : SolverToken → TokenConfig
  token_config c = record { address = hex_to_address c.address; decimals = to_uint 8 c.decimals }

  -- The loop over the solver's tokens, whose symbols are the keys of a map.
  unfoldable pub token_configs : Dict Text SolverToken → Dict Text TokenConfig
  token_configs [] = []
  token_configs ((s, c) ∷ tokens) = (s, token_config c) ∷ token_configs tokens

  -- The native token, if it is ETH, is a token of the zero address.
  unfoldable pub tokens_of : SolverChain → Dict Text TokenConfig
  unfolding token_configs
  tokens_of sc =
      let native : TokenConfig = record { address = 0; decimals = to_uint 8 sc.decimals } in
      if text_eq sc.native_token_symbol eth_symbol
      then insert eth_symbol native (token_configs sc.tokens)
      else token_configs sc.tokens

  -- And the loop over the liquidators.
  unfoldable pub add_liquidators : List CreditContract → Dict Address Address → Dict Address Address
  add_liquidators [] m = m
  add_liquidators (c ∷ cs) m =
      add_liquidators cs (insert (hex_to_address c.token) (hex_to_address c.liquidator) m)

  abbrev pub contracts_of : Option (List CreditContract) → List CreditContract
  contracts_of none = []
  contracts_of (some cs) = cs

  -- `NewEVMConfig` on the decoded entry, with its defaults; `flag` is the flag of the block store.
  unfoldable pub new_evm_config :
      Text → Option RawEvmConfig → SolverConfig → Result ChainConfigError EvmConfig
  unfolding validate parse_flags tokens_of add_confirmations add_liquidators
  new_evm_config flag decoded solver = do
    c ← or_fail decoded not_decoded
    n ← validate c.general
    sc ← or_fail (lookup (caip n) solver.chains) (no_solver_config (caip n))
    ok (record {
      general = parse_flags flag c.general;
      admin = c.admin;
      across_pool = or_empty (lookup (caip n) solver.spoke_pools);
      across_hub_pool = or_empty (lookup (caip n) solver.hub_pools);
      lifi_output_settler = solver.output_settler;
      lifi_input_settler_escrow = solver.input_settler_escrow;
      repayer = or_empty (lookup (caip n) solver.repayer);
      liquidators = add_liquidators (contracts_of (lookup (caip n) solver.sprinter_credit)) [];
      tokens = tokens_of sc;
      confirmations_by_value = add_confirmations sc.confirmations [];
      block_interval = c.block_interval;
      block_retry_interval = to_int64 (c.block_retry_interval * 10 ^ 9);
    })
