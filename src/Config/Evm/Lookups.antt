-- ===== src/Config/Evm/Lookups.antt =====
-- What the maps of a chain's configuration hold, against the solver's configuration.
use sprinter_signing.Base.{
  ℕ, ◌≡◌, ◌≢◌, refl, ap, ◌∙◌, ◌&&◌, Option, none, some, List, [], ◌∷◌, arith, if◌then◌else◌, ok,
}
use sprinter_signing.Base.Int.{to_uint}
use sprinter_signing.Base.Text.{Text, text_eq, text_eq_iff, text_key}
use sprinter_signing.Base.Dict.{Dict, Key, lookup, insert, lookup-insert, nat_key}
use sprinter_signing.Chains.Confirmations.{Buckets}
use sprinter_signing.Chains.Tokens.{Address, TokenConfig}
use sprinter_signing.Config.Evm.{
  RawEvmConfig, EvmConfig, SolverToken, SolverConfirmation, SolverChain, CreditContract,
  SolverConfig, validate, parse_flags, eth_symbol, caip, token_config, token_configs, tokens_of,
  add_confirmations, add_liquidators, contracts_of, new_evm_config,
}

-- The last value that is given for a key, if any is, and else that of a map.
module _ {K V : Type 0} ⦃key : Key K⦄ where
  abbrev pub last_or : K → List (K × V) → Option V → Option V
  last_or k [] v = v
  last_or k ((j, w) ∷ es) v = last_or k es (if key.same j k then some w else v)

abbrev pub confirmation_entries : List SolverConfirmation → List (ℕ × ℕ)
confirmation_entries [] = []
confirmation_entries (c ∷ cs) =
    (to_uint 64 c.max_amount_usd, to_uint 64 c.confirmations) ∷ confirmation_entries cs

pub lookup-add_confirmations :
    (k : ℕ) (cs : List SolverConfirmation) (m : Buckets)
    → lookup k (add_confirmations cs m) ≡ last_or k (confirmation_entries cs) (lookup k m)
unfolding add_confirmations
lookup-add_confirmations k [] m = refl
lookup-add_confirmations k (c ∷ cs) m =
    let bucket = to_uint 64 c.max_amount_usd in
    let n = to_uint 64 c.confirmations in
    lookup-add_confirmations k cs (insert bucket n m)
    ∙ ap (last_or k (confirmation_entries cs)) (lookup-insert bucket k n m)

module _ (hex_to_address : Text → Address) where
  abbrev pub liquidator_entries : List CreditContract → List (Address × Address)
  liquidator_entries [] = []
  liquidator_entries (c ∷ cs) =
      (hex_to_address c.token, hex_to_address c.liquidator) ∷ liquidator_entries cs

  lookup-add_liquidators :
      (k : Address) (cs : List CreditContract) (m : Dict Address Address)
      → lookup k (add_liquidators hex_to_address cs m)
        ≡ last_or k (liquidator_entries cs) (lookup k m)
  unfolding add_liquidators
  lookup-add_liquidators k [] m = refl
  lookup-add_liquidators k (c ∷ cs) m =
      let token = hex_to_address c.token in
      let liquidator = hex_to_address c.liquidator in
      lookup-add_liquidators k cs (insert token liquidator m)
      ∙ ap (last_or k (liquidator_entries cs)) (lookup-insert token k liquidator m)

  abbrev pub converted : Option SolverToken → Option TokenConfig
  converted none = none
  converted (some c) = some (token_config hex_to_address c)

  lookup-token_configs :
      (s : Text) (tokens : Dict Text SolverToken)
      → lookup s (token_configs hex_to_address tokens) ≡ converted (lookup s tokens)
  unfolding token_configs
  lookup-token_configs s [] = refl
  lookup-token_configs s ((t, c) ∷ tokens) = ground (arith, lookup-token_configs s tokens)

  -- The token that a symbol stands for.
  abbrev pub token_named : Text → SolverChain → Option TokenConfig
  token_named s sc =
      if text_eq sc.native_token_symbol eth_symbol && text_eq eth_symbol s
      then some (record { address = 0; decimals = to_uint 8 sc.decimals })
      else converted (lookup s sc.tokens)

  lookup-tokens_of :
      (s : Text) (sc : SolverChain) → lookup s (tokens_of hex_to_address sc) ≡ token_named s sc
  unfolding tokens_of
  lookup-tokens_of s sc =
      let native : TokenConfig = record { address = 0; decimals = to_uint 8 sc.decimals } in
      ground (
        arith,
        lookup-token_configs s sc.tokens,
        lookup-insert eth_symbol s native (token_configs hex_to_address sc.tokens),
      )

  -- What an accepted configuration is for a chain with this ID and this configuration of the solver.
  abbrev pub IsConfigOf :
      RawEvmConfig → SolverConfig → EvmConfig → ℕ → SolverChain → Text → ℕ → Address → Type 0
  IsConfigOf raw solver c n sc symbol bucket token =
      (raw.general.id ≡ some n)
      × (lookup (caip n) solver.chains ≡ some sc)
      × (raw.general.endpoint ≢ [])
      × (raw.general.name ≢ [])
      × (c.general.id ≡ some n)
      × (lookup symbol c.tokens ≡ token_named symbol sc)
      × (lookup bucket c.confirmations_by_value
          ≡ last_or bucket (confirmation_entries sc.confirmations) none)
      × (lookup token c.liquidators
          ≡ last_or token
              (liquidator_entries
                (contracts_of hex_to_address (lookup (caip n) solver.sprinter_credit)))
              none)

  -- An accepted chain has an ID, an endpoint, a name and a configuration of the solver. Each of its
  -- symbols stands for the solver's token, save that ETH, where it is the native token, stands for the
  -- zero address; each bucket has the last number of confirmations that the solver gives for it, and
  -- each token its last liquidator.
  pub new_evm_config_lem :
      (flag : Text) (raw : RawEvmConfig) (solver : SolverConfig) (c : EvmConfig) (bucket : ℕ)
      (symbol : Text) (token : Address)
      → new_evm_config hex_to_address flag (some raw) solver ≡ ok c
      → (n : ℕ) × (sc : SolverChain) × IsConfigOf raw solver c n sc symbol bucket token
  unfolding new_evm_config validate parse_flags
  new_evm_config_lem flag raw solver c bucket symbol token h = with_id raw.general.id refl
    where
      accepted :
          (n : ℕ) (sc : SolverChain)
          → raw.general.id ≡ some n
          → lookup (caip n) solver.chains ≡ some sc
          → IsConfigOf raw solver c n sc symbol bucket token
      accepted n sc i l = ground (
        arith,
        h,
        i,
        l,
        text_eq_iff raw.general.endpoint [],
        text_eq_iff raw.general.name [],
        lookup-tokens_of symbol sc,
        lookup-add_confirmations bucket sc.confirmations [],
        lookup-add_liquidators token
            (contracts_of hex_to_address (lookup (caip n) solver.sprinter_credit)) [],
      )

      with_solver :
          (n : ℕ) (found : Option SolverChain)
          → raw.general.id ≡ some n
          → lookup (caip n) solver.chains ≡ found
          → (n : ℕ) × (sc : SolverChain) × IsConfigOf raw solver c n sc symbol bucket token
      with_solver n none i l = absurd (ground (arith, h, i, l))
      with_solver n (some sc) i l = (n, sc, accepted n sc i l)

      with_id :
          (id : Option ℕ)
          → raw.general.id ≡ id
          → (n : ℕ) × (sc : SolverChain) × IsConfigOf raw solver c n sc symbol bucket token
      with_id none i = absurd (ground (arith, h, i))
      with_id (some n) i = with_solver n (lookup (caip n) solver.chains) i refl
