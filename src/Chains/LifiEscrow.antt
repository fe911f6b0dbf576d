-- ===== src/Chains/LifiEscrow.antt =====
-- chains/evm/message/lifiEscrow.go: `LifiEscrowMessageHandler`. The solver library, which prices an order,
-- routes and validates it, and the ABI are parameters; calls on the empty slices of an order panic.
use sprinter_signing.Base.{
  ℕ, ◌≤◌, ◌<◌, ◌≡◌, Bool, true, false, Option, none, some, List, [], ◌∷◌, arith, ◌==◌, ltb,
  if◌then◌else◌, Result, ok, err, length,
}
use sprinter_signing.Base.Int.{ℤ, is_gt_ℕ}
use sprinter_signing.Base.Dict.{Dict, lookup, nat_key}
use sprinter_signing.Base.Text.{Text}
use sprinter_signing.Comm.Messages.{lifi_escrow_msg, lifi_escrow_session_id}
use sprinter_signing.Peers.{PeerId}
use sprinter_signing.Chains.Amounts.{scale_token_amount}
use sprinter_signing.Chains.Tokens.{Address, TokenStore, Range, config_by_address, config_by_symbol}
use sprinter_signing.Chains.Handler.{
  HandlerError, many_inputs, many_outputs, panicked, reply, Handled, ◌>>=◌, ◌>>◌, returned,
  or_reply, perform, Borrow, Services, session_of, notify, sign_and_execute, replies, signings,
  Signed, bytes_to_address, or_zero, from_tokens, within_input, HoldsFor,
}

-- `LifiEscrowData`, without `ErrChn`, `Source` and `Destination`.
pub record LifiEscrowData : Type 0 where
  pub order_id : Text
  pub coordinator : PeerId
  pub liquidity_pool : Address
  pub caller : Address
  pub deposit_tx_hash : Text
  pub borrow_amount : ℤ
  pub deadline : ℕ
  pub nonce : ℤ

-- An input of `GenericInputs`, with its 32-byte token.
pub record GenericInput : Type 0 where
  pub token_address : ℕ
  pub amount : ℕ

-- `LifiOrder`, as far as the handler reads it: an output's chain.
pub record LifiOrder : Type 0 where
  pub inputs : ℕ
  pub generic_inputs : List GenericInput
  pub outputs : List ℕ
  pub order_initiated_tx_hash : ℕ

pub record LifiEscrowMessageHandler : Type 0 where
  pub chain_id : ℕ
  pub token_store : TokenStore
  pub verify_range : Range
  pub borrow_range : Range
  pub lifi_addresses : Dict ℕ Address
  pub services : Services
  pub marshal : LifiEscrowData → Option Text
  pub order_fetcher : Text → Text → Result HandlerError LifiOrder
  pub validate : LifiOrder → Result HandlerError (Unit {0})
  pub total_inputs_usd_value : LifiOrder → Result HandlerError ℕ
  pub confirmation_watcher : ℕ → ℕ → ℕ → Result HandlerError (Unit {0})
  pub calldata : LifiOrder → Result HandlerError Text

-- `s[0]`
abbrev pub first {κ} : {A : Type κ} → List A → Result HandlerError A
first [] = err panicked
first (a ∷ rest) = ok a

abbrev pub check : Bool → HandlerError → Result HandlerError (Unit {0})
check true e = ok tt
check false e = err e

-- `verifyOrder`. The first index of an empty slice panics and gives no answer; the other failures are
-- returned to `HandleMessage`, which answers with them.
unfoldable pub verify_order : LifiEscrowMessageHandler → LifiOrder → ℤ → Handled (Unit {0})
unfolding config_by_address config_by_symbol scale_token_amount
verify_order h order borrow_amount = do
  or_reply (check (order.inputs == 1) many_inputs)
  or_reply (check (ltb (length order.outputs) 2) many_outputs)
  input ← returned (first order.generic_inputs)
  (symbol, src) ← or_reply (
      from_tokens (
        config_by_address h.verify_range h.token_store h.chain_id
          (bytes_to_address input.token_address)))
  output ← returned (first order.outputs)
  dst ← or_reply (from_tokens (config_by_symbol h.token_store output symbol))
  or_reply (within_input borrow_amount (scale_token_amount input.amount src.decimals dst.decimals))
  or_reply (h.validate order)

-- `borrowToken`
unfoldable pub borrow_token : LifiEscrowMessageHandler → LifiOrder → Handled (Address × ℕ)
unfolding config_by_address config_by_symbol
borrow_token h order = do
  output ← returned (first order.outputs)
  input ← returned (first order.generic_inputs)
  (symbol, src) ← or_reply (
      from_tokens (
        config_by_address h.borrow_range h.token_store h.chain_id
          (bytes_to_address input.token_address)))
  dst ← or_reply (from_tokens (config_by_symbol h.token_store output symbol))
  returned (ok (dst.address, output))

abbrev pub borrow_of : LifiEscrowMessageHandler → LifiEscrowData → Address → ℕ → Text → Borrow
borrow_of h request token chain calldata = record {
  calldata = calldata;
  amount = request.borrow_amount;
  token = token;
  chain_id = chain;
  target = or_zero (lookup chain h.lifi_addresses);
  deadline = request.deadline;
  caller = request.caller;
  liquidity_pool = request.liquidity_pool;
  nonce = request.nonce;
}

-- `HandleMessage`
unfoldable pub handle_message : LifiEscrowMessageHandler → LifiEscrowData → Handled (Unit {0})
unfolding verify_order borrow_token notify sign_and_execute
handle_message h request = do
  coordinator ←
      notify h.services lifi_escrow_msg (session_of h.chain_id lifi_escrow_session_id)
        (λ c. h.marshal (record request { coordinator = c })) request.coordinator
  order ← or_reply (h.order_fetcher request.deposit_tx_hash request.order_id)
  verify_order h order request.borrow_amount
  value ← or_reply (h.total_inputs_usd_value order)
  (token, chain) ← borrow_token h order
  or_reply (h.confirmation_watcher h.chain_id order.order_initiated_tx_hash value)
  perform (reply none)
  calldata ← returned (h.calldata order)
  hash ← returned (h.services.borrow_unlock_hash (borrow_of h request token chain calldata))
  sign_and_execute h.services (session_of h.chain_id request.order_id) hash coordinator

-- Every request is answered at most once, and exactly once where the fetched order, if there is one, has an
-- output and a generic input.
pub lifi_escrow-replies :
    (h : LifiEscrowMessageHandler) (request : LifiEscrowData)
    → (length (replies (handle_message h request).effects) ≤ 1)
      × ((order : LifiOrder)
          → h.order_fetcher request.deposit_tx_hash request.order_id ≡ ok order
          → 0 < length order.outputs
          → 0 < length order.generic_inputs
          → length (replies (handle_message h request).effects) ≡ 1)
      × ((e : HandlerError)
          → h.order_fetcher request.deposit_tx_hash request.order_id ≡ err e
          → replies (handle_message h request).effects ≡ some e ∷ [])
unfolding handle_message verify_order borrow_token notify sign_and_execute
lifi_escrow-replies h request =
    (ground arith, λ order f o g. ground (arith, f, o, g), λ e f. ground (arith, f))

-- What has been checked before `signed` is signed.
abbrev pub IsChecked : LifiEscrowMessageHandler → LifiEscrowData → Signed → Type 0
IsChecked h request (session, hash, coordinator) =
    HoldsFor (h.order_fetcher request.deposit_tx_hash request.order_id) λ order.
      HoldsFor (first order.generic_inputs) λ input. HoldsFor (first order.outputs) λ output.
        let by_address = λ (range : Range).
          config_by_address range h.token_store h.chain_id (bytes_to_address input.token_address) in
        HoldsFor (by_address h.verify_range) λ t.
          HoldsFor (config_by_symbol h.token_store output t.0) λ dst.
            HoldsFor (by_address h.borrow_range) λ u.
              HoldsFor (config_by_symbol h.token_store output u.0) λ borrowed.
                HoldsFor (h.total_inputs_usd_value order) λ value.
                  HoldsFor (h.calldata order) λ calldata.
                    (order.inputs ≡ 1)
                    × (length order.outputs ≡ 1)
                    × (is_gt_ℕ request.borrow_amount
                          (scale_token_amount input.amount (t.1).decimals dst.decimals)
                        ≡ false)
                    × (h.validate order ≡ ok tt)
                    × (h.confirmation_watcher h.chain_id order.order_initiated_tx_hash value
                        ≡ ok tt)
                    × (h.services.borrow_unlock_hash (record {
                      calldata = calldata;
                      amount = request.borrow_amount;
                      token = borrowed.address;
                      chain_id = output;
                      target = or_zero (lookup output h.lifi_addresses);
                      deadline = request.deadline;
                      caller = request.caller;
                      liquidity_pool = request.liquidity_pool;
                      nonce = request.nonce;
                    })
                        ≡ ok hash)
                    × (session ≡ session_of h.chain_id request.order_id)
                    × (coordinator ≡ (
                        if request.coordinator == 0
                        then h.services.host_id
                        else request.coordinator))

-- At most one hash is signed for a request, and only after every check: the fetched order has one input
-- and one output, both tokens are known, the borrowed amount is at most the input's in the decimals of the
-- destination, the solver's validation accepts the order, and it is confirmed. It is the hash of a borrow
-- of just that amount, on the output's chain and to the address that is set for it, with the request's
-- caller, liquidity pool, nonce and deadline, under the session of the order, by the request's coordinator
-- or the relayer itself. The borrowed token is looked up once more by the address of the input, and may be
-- of another symbol than the one whose decimals were taken where two have that address.
pub lifi_escrow-IsChecked :
    (h : LifiEscrowMessageHandler) (request : LifiEscrowData) (s : Signed) (ss : List Signed)
    → signings (handle_message h request).effects ≡ s ∷ ss
    → IsChecked h request s × (ss ≡ [])
unfolding handle_message verify_order borrow_token notify sign_and_execute
lifi_escrow-IsChecked h request s ss e = ground arith
