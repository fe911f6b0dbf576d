-- ===== src/Chains/LifiCalldata.antt =====
-- `calldata` of chains/evm/message/lifiEscrow.go: the outputs of an order as the settler's ABI takes them.
-- Hex and the ABI are parameters; a hash is its number.
use sprinter_signing.Base.{
  ℕ, ◌≡◌, ◌≢◌, Option, none, List, [], ◌∷◌, arith, Result, ok, ◌>>=◌, or_fail, length, All,
}
use sprinter_signing.Base.Int.{ℤ}
use sprinter_signing.Base.Text.{Text}
use sprinter_signing.Chains.Tokens.{Address}

-- An output of a LiFi order.
pub record OrderOutput : Type 0 where
  pub oracle : ℕ
  pub settler : ℕ
  pub recipient : ℕ
  pub chain_id : ℕ
  pub token : ℕ
  pub amount : ℕ
  pub callback_data : Text
  pub context : Text

-- `output`, with the texts decoded.
pub record Output : Type 0 where
  pub oracle : ℕ
  pub settler : ℕ
  pub recipient : ℕ
  pub chain_id : ℕ
  pub token : ℕ
  pub amount : ℕ
  pub callback_data : Text
  pub context : Text

pub data CalldataError : Type 0 where
  invalid_callback_data invalid_context not_packed : CalldataError

module _ (decode_hex : Text → Option Text) where
  -- The loop over the outputs.
  unfoldable pub outputs_of : List OrderOutput → Result CalldataError (List Output)
  outputs_of [] = ok []
  outputs_of (o ∷ os) = do
    callback_data ← or_fail (decode_hex o.callback_data) invalid_callback_data
    context ← or_fail (decode_hex o.context) invalid_context
    outputs ← outputs_of os
    ok (
        record {
          oracle = o.oracle;
          settler = o.settler;
          recipient = o.recipient;
          chain_id = o.chain_id;
          token = o.token;
          amount = o.amount;
          callback_data = callback_data;
          context = context;
        }
        ∷ outputs)

  -- `calldata`: the order's ID on the chain, its outputs, its fill deadline in seconds, and the relayers'
  -- address, to which the inputs are released, as 32 bytes.
  unfoldable pub calldata :
      (ℕ → List Output → ℤ → ℕ → Option Text)
      → ℕ
      → List OrderOutput
      → ℤ
      → Address
      → Result CalldataError Text
  unfolding outputs_of
  calldata pack order_id outputs fill_deadline mpc_address = do
    decoded ← outputs_of outputs
    or_fail (pack order_id decoded fill_deadline mpc_address) not_packed

  abbrev IsDecoded : OrderOutput → Type 0
  IsDecoded o = (decode_hex o.callback_data ≢ none) × (decode_hex o.context ≢ none)

  -- There is calldata for outputs only if all their texts are hex, and it has all of them.
  outputs_of_lem :
      (os : List OrderOutput) (outputs : List Output)
      → outputs_of os ≡ ok outputs
      → All IsDecoded os × (length outputs ≡ length os)
  unfolding outputs_of
  outputs_of_lem [] outputs h = ground (arith, h)
  outputs_of_lem (o ∷ os) [] h = ground (arith, h)
  outputs_of_lem (o ∷ os) (x ∷ outputs) h = ground (arith, h, outputs_of_lem os outputs)
