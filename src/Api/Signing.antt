-- ===== src/Api/Signing.antt =====
-- api/handlers/signing.go: `SigningHandler`. Hex is a parameter; the messages' `Source` is 0 and their
-- `Destination` the chain.
use sprinter_signing.Base.{
  ℕ, ◌<◌, ◌≡◌, ◌↔◌, refl, true, not, ◌||◌, Option, none, some, List, [], ◌∷◌, arith, ◌==◌,
  if◌then◌else◌, contains, Result, ok, err, ◌>>=◌, ◌>>◌, guard, or_fail,
}
use sprinter_signing.Base.Int.{ℤ}
use sprinter_signing.Base.Text.{Text, text_eq, bytes}
use sprinter_signing.Chains.Tokens.{Address}
use sprinter_signing.Chains.Handler.{HandlerError}
use sprinter_signing.Chains.LifiEscrow.{LifiEscrowData}
use sprinter_signing.Chains.SprinterCredit.{SprinterCreditData}
use sprinter_signing.Chains.Lighter.{LighterData}
use sprinter_signing.Api.Numbers.{
  set_string, chain_id_of, ApiError, invalid_body, missing_deposit_id, missing_liquidity_pool,
  missing_caller, missing_nonce, missing_chain_id, missing_deadline, chain_not_supported,
  invalid_protocol, Response, bad_request, internal_error, accepted, panics,
}

pub record SigningBody : Type 0 where
  pub deposit_id : Text
  pub nonce : Option ℤ
  pub protocol : Text
  pub liquidity_pool : Text
  pub caller : Text
  pub calldata : Text
  pub deposit_tx_hash : Text
  pub borrow_amount : Option ℤ
  pub repayment_chain_id : ℕ
  pub deadline : ℕ
  pub token_out : Text

abbrev pub across_protocol : Text
across_protocol = bytes "across"

abbrev pub lifi_escrow_protocol : Text
lifi_escrow_protocol = bytes "lifi-escrow"

abbrev pub lighter_protocol : Text
lighter_protocol = bytes "lighter"

abbrev pub sprinter_credit_protocol : Text
sprinter_credit_protocol = bytes "sprinter-credit"

-- `AcrossData` as the API makes it: its deposit ID is nil where the text is no number.
pub record AcrossRequest : Type 0 where
  pub deposit_id : Option ℤ
  pub nonce : ℤ
  pub liquidity_pool : Address
  pub caller : Address
  pub borrow_amount : ℤ
  pub deposit_tx_hash : ℕ
  pub deadline : ℕ
  pub repayment_chain_id : ℕ

-- A message for a chain.
pub data Message : Type 0 where
  across : ℕ → AcrossRequest → Message
  lifi_escrow : ℕ → LifiEscrowData → Message
  lighter : ℕ → LighterData → Message
  sprinter_credit : ℕ → SprinterCreditData → Message

pub record Hex : Type 0 where
  pub to_address : Text → Address
  pub to_hash : Text → ℕ

-- `validate`: the chain of the request and its nonce. It does not look at the borrowed amount.
unfoldable pub validate : List ℕ → Text → SigningBody → Result ApiError (ℕ × ℤ)
unfolding chain_id_of
validate chains chain_text b = do
  chain ← chain_id_of chain_text
  guard (not (text_eq b.deposit_id [])) missing_deposit_id
  guard (not (text_eq b.liquidity_pool [])) missing_liquidity_pool
  guard (not (text_eq b.caller [])) missing_caller
  nonce ← or_fail b.nonce missing_nonce
  guard (not (chain == 0)) missing_chain_id
  guard (not (b.deadline == 0)) missing_deadline
  guard (contains chains chain) chain_not_supported
  ok (chain, nonce)

-- What becomes of the switch on the protocol: a message, an unknown protocol, or a nil pointer where
-- the borrowed amount is read and there is none.
pub data Dispatched : Type 0 where
  forwarded : Message → Dispatched
  unknown_protocol : Dispatched
  nil_amount : Dispatched

abbrev pub with_amount : Option ℤ → (ℤ → Message) → Dispatched
with_amount none make = nil_amount
with_amount (some amount) make = forwarded (make amount)

unfoldable pub dispatch : Hex → SigningBody → ℕ → ℤ → Dispatched
unfolding set_string
dispatch hex b chain nonce =
    if text_eq b.protocol across_protocol
    then with_amount b.borrow_amount (λ amount. across chain (record {
      deposit_id = set_string b.deposit_id;
      nonce = nonce;
      liquidity_pool = hex.to_address b.liquidity_pool;
      caller = hex.to_address b.caller;
      borrow_amount = amount;
      deposit_tx_hash = hex.to_hash b.deposit_tx_hash;
      deadline = b.deadline;
      repayment_chain_id = b.repayment_chain_id;
    }))
    else if text_eq b.protocol lifi_escrow_protocol
    then with_amount b.borrow_amount (λ amount. lifi_escrow chain (record {
      order_id = b.deposit_id;
      coordinator = 0;
      liquidity_pool = hex.to_address b.liquidity_pool;
      caller = hex.to_address b.caller;
      deposit_tx_hash = b.deposit_tx_hash;
      borrow_amount = amount;
      deadline = b.deadline;
      nonce = nonce;
    }))
    else if text_eq b.protocol lighter_protocol
    then forwarded (
        lighter chain (record {
          order_hash = b.deposit_id;
          coordinator = 0;
          liquidity_pool = hex.to_address b.liquidity_pool;
          deposit_tx_hash = b.deposit_tx_hash;
          nonce = nonce;
          deadline = b.deadline;
        }))
    else if text_eq b.protocol sprinter_credit_protocol
    then with_amount b.borrow_amount (λ amount. sprinter_credit chain (record {
      deposit_id = b.deposit_id;
      borrow_amount = amount;
      calldata = b.calldata;
      deadline = b.deadline;
      liquidity_pool = hex.to_address b.liquidity_pool;
      caller = hex.to_address b.caller;
      nonce = nonce;
      coordinator = 0;
      token_out = b.token_out;
    }))
    else unknown_protocol

-- The wait for `errChn`, on which `reply` is what the message's handler sends first.
abbrev pub answer : Option HandlerError → Response
answer none = accepted
answer (some e) = internal_error

abbrev pub respond : (Message → Option HandlerError) → Dispatched → List Message × Response
respond reply (forwarded m) = (m ∷ [], answer (reply m))
respond reply unknown_protocol = ([], bad_request invalid_protocol)
respond reply nil_amount = ([], panics)

abbrev pub dispatch_valid :
    Hex
    → SigningBody
    → (Message → Option HandlerError)
    → Result ApiError (ℕ × ℤ)
    → List Message × Response
dispatch_valid hex b reply (err e) = ([], bad_request e)
dispatch_valid hex b reply (ok (chain, nonce)) = respond reply (dispatch hex b chain nonce)

-- `HandleSigning`: the messages that it sends to the relayer, and its answer.
unfoldable pub handle_signing :
    Hex
    → List ℕ
    → Text
    → Option SigningBody
    → (Message → Option HandlerError)
    → List Message × Response
unfolding validate dispatch
handle_signing hex chains chain_text none reply = ([], bad_request invalid_body)
handle_signing hex chains chain_text (some b) reply =
    dispatch_valid hex b reply (validate chains chain_text b)

abbrev pub destination : Message → ℕ
destination (across chain m) = chain
destination (lifi_escrow chain m) = chain
destination (lighter chain m) = chain
destination (sprinter_credit chain m) = chain

handle_signing-answer :
    (hex : Hex) (chains : List ℕ) (chain_text : Text) (b : SigningBody)
    (reply : Message → Option HandlerError) (m : Message) (ms : List Message)
    (r : Option HandlerError)
    → reply m ≡ r
    → (handle_signing hex chains chain_text (some b) reply).0 ≡ m ∷ ms
    → (handle_signing hex chains chain_text (some b) reply).1 ≡ answer r
unfolding handle_signing validate dispatch
handle_signing-answer hex chains chain_text b reply m ms none h e = ground (arith, h, e)
handle_signing-answer hex chains chain_text b reply m ms (some x) h e = ground (arith, h, e)

-- Every answer says whether the handler replied with an error.
answer_lem :
    (r : Option HandlerError)
    → ((answer r ≡ accepted) ↔ (r ≡ none))
      × ((e : HandlerError) → r ≡ some e → answer r ≡ internal_error)
answer_lem none = ground arith
answer_lem (some x) = ground arith

-- Only a request for which one message is sent is accepted, and that exactly if the message's handler
-- replies without an error; with one, the answer is an internal error. The message goes to the chain in the path, which is a supported chain and not 0, and to no other.
pub handle_signing_lem :
    (hex : Hex) (chains : List ℕ) (chain_text : Text) (b : SigningBody)
    (reply : Message → Option HandlerError) (m : Message) (ms : List Message)
    → let (messages, response) = handle_signing hex chains chain_text (some b) reply in
      (messages ≡ m ∷ ms
        → (ms ≡ [])
          × ((response ≡ accepted) ↔ (reply m ≡ none))
          × ((e : HandlerError) → reply m ≡ some e → response ≡ internal_error)
          × (chain_id_of chain_text ≡ ok (destination m))
          × (contains chains (destination m) ≡ true)
          × (0 < destination m)
          × (0 < b.deadline))
      × (messages ≡ [] → response ≡ accepted → ⊥)
unfolding handle_signing validate dispatch
handle_signing_lem hex chains chain_text b reply m ms = (
  λ e.
      let said = handle_signing-answer hex chains chain_text b reply m ms (reply m) refl e in
      ground (arith, e, said, answer_lem (reply m)),
  λ e r. ground (arith, e, r),
)

-- A request that passes the checks, of a protocol that borrows, without an amount makes the handler
-- panic; a request with an amount never does.
pub handle_signing-panics :
    (hex : Hex) (chains : List ℕ) (chain_text : Text) (b : SigningBody) (chain : ℕ)
    (nonce amount : ℤ) (reply : Message → Option HandlerError)
    → let (messages, response) = handle_signing hex chains chain_text (some b) reply in
      (validate chains chain_text b ≡ ok (chain, nonce)
        → text_eq b.protocol across_protocol || text_eq b.protocol lifi_escrow_protocol ≡ true
        → b.borrow_amount ≡ none
        → response ≡ panics)
      × (b.borrow_amount ≡ some amount → response ≡ panics → ⊥)
unfolding handle_signing dispatch
handle_signing-panics hex chains chain_text b chain nonce amount reply =
    (λ v p n. ground (arith, v, p, n), λ s r. ground (arith, s, r))
