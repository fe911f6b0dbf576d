-- ===== src/Chains/Tokens.antt =====
-- config/token.go: the tokens of each chain by their symbol. `ConfigByAddress` ranges over a Go map, so
-- that the order of the entries is a parameter of each call.
use sprinter_signing.Base.{
  ℕ, ◌≡◌, refl, Option, none, some, [], ◌∷◌, arith, ◌==◌, if◌then◌else◌, Result, ok, ◌>>=◌, or_fail,
}
use sprinter_signing.Base.Dict.{Dict, lookup, nat_key}
use sprinter_signing.Base.Text.{Text, text_key, text_eq_iff}

abbrev pub Address : Type 0
Address = ℕ

pub record TokenConfig : Type 0 where
  pub address : Address
  pub decimals : ℕ

abbrev pub TokenStore : Type 0
TokenStore = Dict ℕ (Dict Text TokenConfig)

pub data TokenError : Type 0 where
  no_tokens : ℕ → TokenError
  no_symbol : Address → TokenError
  no_config : Text → TokenError

-- The order in which one call ranges over the tokens of a chain.
abbrev pub Range : Type 0
Range = Dict Text TokenConfig → Dict Text TokenConfig

-- The loop of `ConfigByAddress`.
unfoldable pub find_address : Address → Dict Text TokenConfig → Option (Text × TokenConfig)
find_address address [] = none
find_address address ((symbol, c) ∷ tokens) =
    let rest = find_address address tokens in
    if c.address == address then some (symbol, c) else rest

unfoldable pub config_by_address :
    Range → TokenStore → ℕ → Address → Result TokenError (Text × TokenConfig)
unfolding find_address
config_by_address range store chain_id address = do
  tokens ← or_fail (lookup chain_id store) (no_tokens chain_id)
  or_fail (find_address address (range tokens)) (no_symbol address)

unfoldable pub config_by_symbol : TokenStore → ℕ → Text → Result TokenError TokenConfig
config_by_symbol store chain_id symbol = do
  tokens ← or_fail (lookup chain_id store) (no_tokens chain_id)
  or_fail (lookup symbol tokens) (no_config symbol)

-- The keys of a Go map are distinct.
abbrev pub IsMap : Dict Text TokenConfig → Type 0
IsMap [] = Unit {0}
IsMap ((symbol, c) ∷ tokens) = (lookup symbol tokens ≡ none) × IsMap tokens

find_address_lem :
    (address : Address) (symbol : Text) (c : TokenConfig) (tokens : Dict Text TokenConfig)
    → IsMap tokens
    → find_address address tokens ≡ some (symbol, c)
    → (c.address ≡ address) × (lookup symbol tokens ≡ some c)
unfolding find_address
find_address_lem address symbol c [] m h = ground arith
find_address_lem address symbol c ((s, d) ∷ tokens) m h =
    ground (arith, h, m, find_address_lem address symbol c tokens m.1, text_eq_iff s symbol)

-- A symbol that is found by an address is the symbol of a token with this address on that chain.
pub config_by_address_lem :
    (range : Range) (store : TokenStore) (chain_id : ℕ) (address : Address) (symbol : Text)
    (c : TokenConfig)
    → ((tokens : Dict Text TokenConfig)
        → lookup chain_id store ≡ some tokens
        → IsMap (range tokens) × (lookup symbol (range tokens) ≡ lookup symbol tokens))
    → config_by_address range store chain_id address ≡ ok (symbol, c)
    → (c.address ≡ address) × (config_by_symbol store chain_id symbol ≡ ok c)
unfolding config_by_address config_by_symbol
config_by_address_lem range store chain_id address symbol c m h = step (lookup chain_id store) refl
  where
    step :
        (tokens : Option (Dict Text TokenConfig))
        → lookup chain_id store ≡ tokens
        → (c.address ≡ address) × (config_by_symbol store chain_id symbol ≡ ok c)
    step none e = ground (arith, h, e)
    step (some tokens) e =
        ground
          (arith, h, e, m tokens e, find_address_lem address symbol c (range tokens) (m tokens e).0)
