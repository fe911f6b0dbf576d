-- ===== src/Chains/Lighter.antt =====
-- chains/lighter/message/lighter.go: `LighterMessageHandler`, and the transaction of
-- protocol/lighter/api.go that it reads. The ABI and the lookup of a transaction are parameters.
use sprinter_signing.Base.{
  ℕ, ◌/◌, ◌≤◌, ◌≡◌, Bool, true, false, Option, none, some, List, [], ◌∷◌, arith, ◌==◌, ltb,
  if◌then◌else◌, Result, ok, err, length, take, ◌+◌,
}
use sprinter_signing.Base.Int.{ℤ, pos, negsuc}
use sprinter_signing.Base.Dict.{nat_key}
use sprinter_signing.Base.Text.{Text, decimal, text_eq}
use sprinter_signing.Comm.Messages.{lighter_msg, lighter_session_id}
use sprinter_signing.Comm.SubscriptionId.{dash}
use sprinter_signing.Peers.{PeerId}
use sprinter_signing.Chains.Tokens.{Address}
use sprinter_signing.Chains.Confirmations.{Buckets, bounds, sort_uint64, first_above}
use sprinter_signing.Chains.Handler.{
  HandlerError, panicked, invalid_tx_type, invalid_account, only_usdc, exceeds_buckets, reply,
  Handled, ◌>>=◌, ◌>>◌, returned, or_reply, perform, Borrow, Services, session_of, notify,
  sign_and_execute, replies, Signed, HoldsFor,
}

pub record Transfer : Type 0 where
  pub amount : ℕ
  pub asset_index : ℕ
  pub from_account_index : ℕ
  pub to_account_index : ℤ
  pub fee : ℕ
  pub memo : List ℕ

-- `LighterTx`. The pointer to the transfer is nil where the `info` of a transfer is `null`.
pub record LighterTx : Type 0 where
  pub hash : Text
  pub type : ℕ
  pub transfer : Option Transfer

-- `LighterData`, without the fields that the handler does not read.
pub record LighterData : Type 0 where
  pub order_hash : Text
  pub coordinator : PeerId
  pub liquidity_pool : Address
  pub deposit_tx_hash : Text
  pub nonce : ℤ
  pub deadline : ℕ

pub record LighterMessageHandler : Type 0 where
  pub services : Services
  pub lighter_address : Address
  pub usdc_address : Address
  pub repayment_account : Text
  pub confirmations : Buckets
  pub marshal : LighterData → Option Text
  pub tx_fetcher : Text → Result HandlerError LighterTx
  pub pack_fulfill_withdraw : Text → List ℕ → ℕ → Result HandlerError Text

abbrev pub lighter_domain_id : ℕ
lighter_domain_id = 1701984817

abbrev pub arbitrum_chain_id : ℕ
arbitrum_chain_id = 42161

abbrev pub usdc_account_index : ℕ
usdc_account_index = 3

abbrev pub tx_type_l2_transfer : ℕ
tx_type_l2_transfer = 12

-- `strconv.Itoa`
abbrev pub itoa : ℤ → Text
itoa (pos n) = decimal n
itoa (negsuc n) = dash ∷ decimal (n + 1)

abbrev pub check : Bool → HandlerError → Result HandlerError (Unit {0})
check true e = ok tt
check false e = err e

-- A field of a nil pointer panics.
abbrev pub dereference : Option Transfer → Result HandlerError Transfer
dereference none = err panicked
dereference (some t) = ok t

abbrev pub is_some : Option ℕ → Bool
is_some none = false
is_some (some n) = true

-- `verifyOrderSize`: some bucket is above the value.
unfoldable pub verify_order_size : Buckets → ℕ → Bool
unfolding sort_uint64 first_above
verify_order_size buckets value = is_some (first_above value (sort_uint64 (bounds buckets)))

-- `verifyWithdrawal`
unfoldable pub verify_withdrawal : LighterMessageHandler → LighterTx → Handled Transfer
unfolding verify_order_size
verify_withdrawal h tx = do
  or_reply (check (tx.type == tx_type_l2_transfer) invalid_tx_type)
  t ← returned (dereference tx.transfer)
  or_reply (check (text_eq (itoa t.to_account_index) h.repayment_account) invalid_account)
  or_reply (check (t.asset_index == usdc_account_index) only_usdc)
  or_reply (check (verify_order_size h.confirmations (t.amount / 1000000)) exceeds_buckets)
  returned (ok t)

-- `calldata`. The slice of a memo of fewer than 20 bytes panics.
unfoldable pub calldata : LighterMessageHandler → LighterTx → Transfer → Result HandlerError Text
calldata h tx t =
    if ltb (length t.memo) 20
    then err panicked
    else h.pack_fulfill_withdraw tx.hash (take 20 t.memo) t.amount

abbrev pub borrow_of : LighterMessageHandler → LighterData → Transfer → Text → Borrow
borrow_of h request t packed = record {
  calldata = packed;
  amount = pos t.amount;
  token = h.usdc_address;
  chain_id = arbitrum_chain_id;
  target = h.lighter_address;
  deadline = request.deadline;
  caller = h.lighter_address;
  liquidity_pool = request.liquidity_pool;
  nonce = request.nonce;
}

-- `HandleMessage`. It answers a failure of the hashing too, after the answer that all is well.
unfoldable pub handle_message : LighterMessageHandler → LighterData → Handled (Unit {0})
unfolding verify_withdrawal calldata notify sign_and_execute
handle_message h request = do
  coordinator ←
      notify h.services lighter_msg lighter_session_id
        (λ c. h.marshal (record request { coordinator = c })) request.coordinator
  tx ← or_reply (h.tx_fetcher request.deposit_tx_hash)
  t ← verify_withdrawal h tx
  perform (reply none)
  packed ← returned (calldata h tx t)
  hash ← or_reply (h.services.borrow_unlock_hash (borrow_of h request t packed))
  sign_and_execute h.services (session_of lighter_domain_id request.order_hash) hash coordinator

-- A request whose transaction does not verify is answered at most once. One whose transaction verifies is
-- answered twice exactly if its calldata packs and the hashing fails, and once otherwise.
pub lighter-replies :
    (h : LighterMessageHandler) (request : LighterData) (tx : LighterTx) (t : Transfer)
    → h.tx_fetcher request.deposit_tx_hash ≡ ok tx
    → ((verify_withdrawal h tx).result ≡ ok t
        → replies (handle_message h request).effects ≡ (elim (calldata h tx t) [
          | err e ↦ none ∷ []
          | ok packed ↦ elim (h.services.borrow_unlock_hash (borrow_of h request t packed)) [
            | err e ↦ none ∷ some e ∷ []
            | ok hash ↦ none ∷ []
          ]
        ]))
      × ((e : HandlerError)
          → (verify_withdrawal h tx).result ≡ err e
          → length (replies (handle_message h request).effects) ≤ 1)
unfolding handle_message verify_withdrawal notify sign_and_execute
lighter-replies h request tx t f = (λ v. ground (arith, f, v), λ e v. ground (arith, f, v))

-- What has been checked before `signed` is signed.
abbrev pub IsChecked : LighterMessageHandler → LighterData → Signed → Type 0
IsChecked h request (session, hash, coordinator) =
    HoldsFor (h.tx_fetcher request.deposit_tx_hash) λ tx. HoldsFor (dereference tx.transfer) λ t.
      HoldsFor (calldata h tx t) λ packed.
        (tx.type ≡ tx_type_l2_transfer)
        × (text_eq (itoa t.to_account_index) h.repayment_account ≡ true)
        × (t.asset_index ≡ usdc_account_index)
        × (verify_order_size h.confirmations (t.amount / 1000000) ≡ true)
        × (h.services.borrow_unlock_hash (record {
          calldata = packed;
          amount = pos t.amount;
          token = h.usdc_address;
          chain_id = 42161;
          target = h.lighter_address;
          deadline = request.deadline;
          caller = h.lighter_address;
          liquidity_pool = request.liquidity_pool;
          nonce = request.nonce;
        })
            ≡ ok hash)
        × (session ≡ session_of lighter_domain_id request.order_hash)
        × (coordinator
            ≡ (if request.coordinator == 0 then h.services.host_id else request.coordinator))
