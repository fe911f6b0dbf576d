-- ===== src/Chains/Across.antt =====
-- chains/evm/message/across.go: `AcrossMessageHandler`.
use sprinter_signing.Base.{
  ℕ, ◌%◌, ◌^◌, ◌≡◌, false, Option, none, some, List, [], ◌∷◌, arith, ◌==◌, if◌then◌else◌, Result,
  ok, err, length,
}
use sprinter_signing.Base.Int.{ℤ, is_gt_ℕ}
use sprinter_signing.Base.Dict.{Dict, lookup, nat_key}
use sprinter_signing.Base.Text.{Text}
use sprinter_signing.Comm.Messages.{across_msg, across_session_id}
use sprinter_signing.Peers.{PeerId}
use sprinter_signing.Chains.Amounts.{scale_token_amount}
use sprinter_signing.Chains.Tokens.{Address, TokenStore, Range, config_by_address, config_by_symbol}
use sprinter_signing.Chains.Handler.{
  HandlerError, invalid_repayment_chain, reply, Handled, ◌>>=◌, ◌>>◌, returned, or_reply,
  bytes_to_address, or_zero, from_tokens, within_input, HoldsFor, perform, Borrow, Services,
  session_of, big_text, notify, sign_and_execute, replies, signings, Signed,
}

-- `AcrossData`, without `ErrChn`, `Source` and `Destination`. The deposit ID is nil where the API could
-- not read it.
pub record AcrossData : Type 0 where
  pub deposit_tx_hash : ℕ
  pub deposit_id : Option ℤ
  pub nonce : ℤ
  pub borrow_amount : ℤ
  pub liquidity_pool : Address
  pub repayment_chain_id : ℕ
  pub caller : Address
  pub coordinator : PeerId
  pub deadline : ℕ

-- `AcrossDeposit`, as far as the handler reads it. Tokens are 32 bytes.
pub record AcrossDeposit : Type 0 where
  pub input_token : ℕ
  pub output_token : ℕ
  pub input_amount : ℕ
  pub destination_chain_id : ℕ

pub record AcrossMessageHandler : Type 0 where
  pub chain_id : ℕ
  pub token_store : TokenStore
  pub range : Range
  pub pools : Dict ℕ Address
  pub repayers : Dict ℕ Address
  pub services : Services
  pub marshal : AcrossData → Option Text
  pub deposit_fetcher : ℕ → Option ℤ → Result HandlerError AcrossDeposit
  pub confirmation_watcher : ℕ → ℕ → Address → ℕ → Result HandlerError (Unit {0})
  pub calldata : AcrossDeposit → ℕ → ℕ → Address → Result HandlerError Text

abbrev pub repayer : AcrossMessageHandler → ℕ → Result HandlerError Address
repayer h chain = elim (lookup chain h.repayers) [
  | some a ↦ ok a
  | none ↦ err (invalid_repayment_chain chain)
]

abbrev pub borrow_of : AcrossMessageHandler → AcrossData → AcrossDeposit → Text → Borrow
borrow_of h request d calldata = record {
  calldata = calldata;
  amount = request.borrow_amount;
  token = bytes_to_address d.output_token;
  chain_id = d.destination_chain_id;
  target = or_zero (lookup (d.destination_chain_id % 2 ^ 64) h.pools);
  deadline = request.deadline;
  caller = request.caller;
  liquidity_pool = request.liquidity_pool;
  nonce = request.nonce;
}

-- The part of `HandleMessage` up to `data.ErrChn <- nil`.
unfoldable pub verify : AcrossMessageHandler → AcrossData → Handled AcrossDeposit
unfolding config_by_address config_by_symbol scale_token_amount
verify h request = do
  d ← or_reply (h.deposit_fetcher request.deposit_tx_hash request.deposit_id)
  (symbol, src) ← or_reply (
      from_tokens
        (config_by_address h.range h.token_store h.chain_id (bytes_to_address d.input_token)))
  dst ←
      or_reply
        (from_tokens (config_by_symbol h.token_store (d.destination_chain_id % 2 ^ 64) symbol))
  or_reply (
      within_input request.borrow_amount
        (scale_token_amount d.input_amount src.decimals dst.decimals))
  or_reply (
      h.confirmation_watcher h.chain_id request.deposit_tx_hash (bytes_to_address d.input_token)
        d.input_amount)
  returned (ok d)

-- `HandleMessage`
unfoldable pub handle_message : AcrossMessageHandler → AcrossData → Handled (Unit {0})
unfolding verify notify sign_and_execute
handle_message h request = do
  repayment_address ← or_reply (repayer h request.repayment_chain_id)
  coordinator ←
      notify h.services across_msg (session_of h.chain_id across_session_id)
        (λ c. h.marshal (record request { coordinator = c })) request.coordinator
  d ← verify h request
  perform (reply none)
  calldata ← returned (h.calldata d h.chain_id request.repayment_chain_id repayment_address)
  hash ← returned (h.services.borrow_unlock_hash (borrow_of h request d calldata))
  sign_and_execute h.services (session_of h.chain_id (big_text request.deposit_id)) hash coordinator

-- If the deposit fetcher returns, a request is answered exactly once, on every path: with the error of the check that failed, or with
-- none when all of them passed.
pub across-replies :
    (h : AcrossMessageHandler) (request : AcrossData)
    → length (replies (handle_message h request).effects) ≡ 1
unfolding handle_message verify notify sign_and_execute
across-replies h request = ground arith

-- What has been checked before `signed` is signed.
abbrev pub IsChecked : AcrossMessageHandler → AcrossData → Signed → Type 0
IsChecked h request (session, hash, coordinator) =
    HoldsFor (repayer h request.repayment_chain_id) λ repayment_address.
      HoldsFor (h.deposit_fetcher request.deposit_tx_hash request.deposit_id) λ d.
        HoldsFor
          (config_by_address h.range h.token_store h.chain_id (bytes_to_address d.input_token))
          λ t.
            HoldsFor (config_by_symbol h.token_store (d.destination_chain_id % 2 ^ 64) t.0) λ dst.
              HoldsFor (h.calldata d h.chain_id request.repayment_chain_id repayment_address)
                λ calldata.
                  (is_gt_ℕ request.borrow_amount
                      (scale_token_amount d.input_amount (t.1).decimals dst.decimals)
                    ≡ false)
                  × (h.confirmation_watcher h.chain_id request.deposit_tx_hash
                        (bytes_to_address d.input_token) d.input_amount
                      ≡ ok tt)
                  × (h.services.borrow_unlock_hash (record {
                    calldata = calldata;
                    amount = request.borrow_amount;
                    token = bytes_to_address d.output_token;
                    chain_id = d.destination_chain_id;
                    target = or_zero (lookup (d.destination_chain_id % 2 ^ 64) h.pools);
                    deadline = request.deadline;
                    caller = request.caller;
                    liquidity_pool = request.liquidity_pool;
                    nonce = request.nonce;
                  })
                      ≡ ok hash)
                  × (session ≡ session_of h.chain_id (big_text request.deposit_id))
                  × (coordinator ≡ (
                      if request.coordinator == 0 then h.services.host_id else request.coordinator))

-- At most one hash is signed for a request, and only after every check: a repayer is set for the repayment
-- chain, the deposit was fetched, both of its tokens are known, the borrowed amount is at most the
-- deposit's in the decimals of the destination, and the deposit is confirmed. It is the hash of a borrow
-- of just that amount of the deposit's output token, on its destination chain and to the pool there, with
-- the request's caller, liquidity pool, nonce and deadline, under the session of the deposit's ID as the
-- request gives it, by the request's coordinator or the relayer itself.
pub across-IsChecked :
    (h : AcrossMessageHandler) (request : AcrossData) (s : Signed) (ss : List Signed)
    → signings (handle_message h request).effects ≡ s ∷ ss
    → IsChecked h request s × (ss ≡ [])
unfolding handle_message verify notify sign_and_execute
across-IsChecked h request s ss e = ground arith
