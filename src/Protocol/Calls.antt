-- ===== src/Protocol/Calls.antt =====
-- The calls behind the handlers: chains/evm/calls/contracts/hubPool.go, chains/evm/calls/events/ and
-- protocol/lifi/api.go. The chain's client, the ABIs and encoding/json are parameters.
use sprinter_signing.Base.{
  ℕ, ◌≡◌, ◌<◌, not, Option, none, some, List, [], ◌∷◌, ◌++◌, arith, Result, ok, ◌>>=◌, ◌>>◌, guard,
  or_fail, ◌==◌,
}
use sprinter_signing.Base.Dict.{Dict, lookup}
use sprinter_signing.Base.Text.{Text, bytes, text_key}
use sprinter_signing.Chains.Tokens.{Address, TokenConfig}
use sprinter_signing.Protocol.Http.{HttpResponse, status_ok}
use sprinter_signing.Protocol.Logs.{Log}

pub data CallError : Type 0 where
  no_hub_pool_token call_failed no_rebalance_route : CallError
  no_logs : CallError
  request_failed unexpected_status not_read not_json : CallError

-- `HubPoolContract`: its tokens, and what `poolRebalanceRoute` returns for a chain and a token.
pub record HubPool : Type 0 where
  pub tokens : Dict Text TokenConfig
  pub pool_rebalance_route : ℕ → Address → Option Address

-- `DestinationToken`
unfoldable pub destination_token : HubPool → ℕ → Text → Result CallError Address
destination_token c chain symbol = do
  token ← or_fail (lookup symbol c.tokens) no_hub_pool_token
  out ← or_fail (c.pool_rebalance_route chain token.address) call_failed
  guard (not (out == 0)) no_rebalance_route
  ok out

-- A token that is returned is not the zero address, and is the route of the hub pool's token of the
-- symbol to the chain.
destination_token_lem :
    (c : HubPool) (chain : ℕ) (symbol : Text) (token : TokenConfig) (out : Address)
    → lookup symbol c.tokens ≡ some token
    → destination_token c chain symbol ≡ ok out
    → (0 < out) × (c.pool_rebalance_route chain token.address ≡ some out)
unfolding destination_token
destination_token_lem c chain symbol token out l h = (ground (arith, l, h), ground (arith, l, h))

-- `FetchKeygenEvents`, where `logs` are those that the client finds.
unfoldable pub fetch_keygen_events : Option (List Log) → Result CallError (List Log)
fetch_keygen_events logs = do found ← or_fail logs no_logs; ok found

-- The loop of `FetchRefreshEvents`: the first log that `UnpackRefresh` can read, and the hash in it.
unfoldable pub first_refresh : (Text → Option Text) → List Log → Option (Text × Log)
first_refresh unpack_refresh [] = none
first_refresh unpack_refresh (l ∷ logs) =
    let rest = first_refresh unpack_refresh logs in
    elim (unpack_refresh l.data_bytes) [ none ↦ rest | some hash ↦ some (hash, l) ]

-- `FetchRefreshEvents`: no refresh is no error.
unfoldable pub fetch_refresh_events :
    (Text → Option Text) → Option (List Log) → Result CallError (Option (Text × Log))
unfolding first_refresh
fetch_refresh_events unpack_refresh logs = do
  found ← or_fail logs no_logs
  ok (first_refresh unpack_refresh found)

-- Logs in front that cannot be read do not matter.
first_refresh-skips :
    (unpack_refresh : Text → Option Text) (l : Log) (logs : List Log)
    → unpack_refresh l.data_bytes ≡ none
    → first_refresh unpack_refresh (l ∷ logs) ≡ first_refresh unpack_refresh logs
unfolding first_refresh
first_refresh-skips unpack_refresh l logs h = ground (arith, h)

-- `GetOrder`, for orders of a type `O`.
unfoldable pub get_order :
    {O : Type 0} → (Text → Option HttpResponse) → (Text → Option O) → Text → Result CallError O
get_order get unmarshal order_id = do
  resp ←
      or_fail (get (bytes "https://order.li.fi/orders/status?onChainOrderId=" ++ order_id))
        request_failed
  guard (resp.status == status_ok) unexpected_status
  body ← or_fail resp.body not_read
  or_fail (unmarshal body) not_json

-- The event `FundsDeposited` and the relay data that fills it.
pub record AcrossDeposit : Type 0 where
  pub input_token : ℕ
  pub output_token : ℕ
  pub input_amount : ℕ
  pub output_amount : ℕ
  pub destination_chain_id : ℕ
  pub deposit_id : ℕ
  pub quote_timestamp : ℕ
  pub exclusivity_deadline : ℕ
  pub fill_deadline : ℕ
  pub depositor : ℕ
  pub recipient : ℕ
  pub exclusive_relayer : ℕ
  pub message : Text

pub record AcrossV3RelayData : Type 0 where
  pub depositor : ℕ
  pub recipient : ℕ
  pub exclusive_relayer : ℕ
  pub input_token : ℕ
  pub output_token : ℕ
  pub input_amount : ℕ
  pub output_amount : ℕ
  pub origin_chain_id : ℕ
  pub deposit_id : ℕ
  pub fill_deadline : ℕ
  pub exclusivity_deadline : ℕ
  pub message : Text

-- `ToV3RelayData`
unfoldable pub to_v3_relay_data : ℕ → AcrossDeposit → AcrossV3RelayData
to_v3_relay_data origin_chain_id a = record {
  depositor = a.depositor;
  recipient = a.recipient;
  exclusive_relayer = a.exclusive_relayer;
  input_token = a.input_token;
  output_token = a.output_token;
  input_amount = a.input_amount;
  output_amount = a.output_amount;
  origin_chain_id = origin_chain_id;
  deposit_id = a.deposit_id;
  fill_deadline = a.fill_deadline;
  exclusivity_deadline = a.exclusivity_deadline;
  message = a.message;
}

-- `Calldata`, with the ABI's packing of the data, the chain and the address as a number of 32 bytes.
unfoldable pub calldata :
    (AcrossV3RelayData → ℕ → ℕ → Option Text)
    → AcrossV3RelayData
    → ℕ
    → Address
    → Result CallError Text
calldata pack_fill_relay a repayment_chain_id repayment_address =
    or_fail (pack_fill_relay a repayment_chain_id repayment_address) call_failed
