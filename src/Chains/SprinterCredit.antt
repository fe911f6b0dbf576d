-- ===== src/Chains/SprinterCredit.antt =====
-- chains/evm/message/sprinter.go: `SprinterCreditMessageHandler`.
use sprinter_signing.Base.{ℕ, Option, none, some, Result, ok, err}
use sprinter_signing.Base.Int.{ℤ}
use sprinter_signing.Base.Dict.{Dict, lookup, nat_key}
use sprinter_signing.Base.Text.{Text}
use sprinter_signing.Comm.Messages.{sprinter_credit_msg, sprinter_credit_session_id}
use sprinter_signing.Peers.{PeerId}
use sprinter_signing.Chains.Tokens.{Address}
use sprinter_signing.Chains.Handler.{
  HandlerError, no_liquidator, reply, Handled, ◌>>=◌, ◌>>◌, or_reply, perform, Borrow, Services,
  session_of, notify, sign_and_execute,
}

-- `SprinterCreditData`, without `ErrChn`, `Source` and `Destination`.
pub record SprinterCreditData : Type 0 where
  pub deposit_id : Text
  pub borrow_amount : ℤ
  pub calldata : Text
  pub deadline : ℕ
  pub liquidity_pool : Address
  pub caller : Address
  pub nonce : ℤ
  pub coordinator : PeerId
  pub token_out : Text

pub record SprinterCreditMessageHandler : Type 0 where
  pub chain_id : ℕ
  pub liquidators : Dict Address Address
  pub services : Services
  pub marshal : SprinterCreditData → Option Text
  pub decode_hex : Text → Result HandlerError Text
  pub hex_to_address : Text → Address

abbrev pub liquidator : SprinterCreditMessageHandler → Address → Result HandlerError Address
liquidator h token = elim (lookup token h.liquidators) [
  | some a ↦ ok a
  | none ↦ err (no_liquidator token)
]

abbrev pub borrow_of : SprinterCreditMessageHandler → SprinterCreditData → Address → Text → Borrow
borrow_of h request target calldata = record {
  calldata = calldata;
  amount = request.borrow_amount;
  token = h.hex_to_address request.token_out;
  chain_id = h.chain_id;
  target = target;
  deadline = request.deadline;
  caller = request.caller;
  liquidity_pool = request.liquidity_pool;
  nonce = request.nonce;
}

-- `HandleMessage`
unfoldable pub handle_message :
    SprinterCreditMessageHandler → SprinterCreditData → Handled (Unit {0})
unfolding notify sign_and_execute
handle_message h request = do
  coordinator ←
      notify h.services sprinter_credit_msg (session_of h.chain_id sprinter_credit_session_id)
        (λ c. h.marshal (record request { coordinator = c })) request.coordinator
  calldata ← or_reply (h.decode_hex request.calldata)
  target ← or_reply (liquidator h (h.hex_to_address request.token_out))
  hash ← or_reply (h.services.borrow_unlock_hash (borrow_of h request target calldata))
  perform (reply none)
  sign_and_execute h.services (session_of h.chain_id request.deposit_id) hash coordinator
