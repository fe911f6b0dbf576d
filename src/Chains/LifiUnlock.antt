-- ===== src/Chains/LifiUnlock.antt =====
-- chains/evm/message/unlock.go: `LifiUnlockHandler`. EIP-712 hashing of the order, the repayer's address
-- and the settler is a parameter.
use sprinter_signing.Base.{
  ℕ, ◌≡◌, Option, none, some, List, [], ◌∷◌, arith, ◌==◌, if◌then◌else◌, Result, ok, err,
}
use sprinter_signing.Base.Dict.{Dict, lookup, nat_key}
use sprinter_signing.Base.Text.{Text}
use sprinter_signing.Comm.Messages.{MessageType, lifi_unlock_msg, lifi_unlock_session_id}
use sprinter_signing.Peers.{PeerId}
use sprinter_signing.Chains.Tokens.{Address}
use sprinter_signing.Chains.Handler.{
  HandlerError, invalid_repayment_chain, Handled, ◌>>=◌, returned, Services, session_of, notify,
  sign_and_execute, signings, broadcasts, Signed, HoldsFor,
}

-- `LifiUnlockData`, without `SigChn`, `Source` and `Destination`.
pub record LifiUnlockData : Type 0 where
  pub order_id : Text
  pub settler : Address
  pub coordinator : PeerId

pub record LifiUnlockHandler : Type 0 where
  pub chain_id : ℕ
  pub repayers : Dict ℕ Address
  pub services : Services
  pub marshal : LifiUnlockData → Option Text
  pub hash_allow_open : ℕ → Text → Address → Address → Result HandlerError ℕ

abbrev pub repayer : LifiUnlockHandler → Result HandlerError Address
repayer h = elim (lookup h.chain_id h.repayers) [
  | some a ↦ ok a
  | none ↦ err (invalid_repayment_chain h.chain_id)
]

-- `lifiUnlockHash`
unfoldable pub lifi_unlock_hash : LifiUnlockHandler → LifiUnlockData → Handled ℕ
lifi_unlock_hash h request = do
  address ← returned (repayer h)
  returned (h.hash_allow_open h.chain_id request.order_id address request.settler)

-- `HandleMessage`
unfoldable pub handle_message : LifiUnlockHandler → LifiUnlockData → Handled (Unit {0})
unfolding lifi_unlock_hash notify sign_and_execute
handle_message h request = do
  coordinator ←
      notify h.services lifi_unlock_msg (session_of h.chain_id lifi_unlock_session_id)
        (λ c. h.marshal (record request { coordinator = c })) request.coordinator
  hash ← lifi_unlock_hash h request
  sign_and_execute h.services (session_of h.chain_id request.order_id) hash coordinator

abbrev pub payloads : LifiUnlockHandler → Option Text → List (MessageType × Text × Text)
payloads h none = []
payloads h (some p) = (lifi_unlock_msg, session_of h.chain_id lifi_unlock_session_id, p) ∷ []

-- The relayer that got the request tells the others of it, once if it can be encoded; one that was told of it
-- tells nobody. A hash that is signed sends the inputs of the order to the repayer of the handler's own
-- chain, and it is the only one.
pub lifi_unlock_lem :
    (h : LifiUnlockHandler) (request : LifiUnlockData) (s : Signed) (ss : List Signed)
    → (broadcasts (handle_message h request).effects ≡ (
        if request.coordinator == 0
        then payloads h (h.marshal (record request { coordinator = h.services.host_id }))
        else []))
      × (signings (handle_message h request).effects ≡ s ∷ ss
          → (ss ≡ [])
            × HoldsFor (repayer h) λ address.
              (h.hash_allow_open h.chain_id request.order_id address request.settler ≡ ok s.1)
              × (s.0 ≡ session_of h.chain_id request.order_id))
unfolding handle_message lifi_unlock_hash notify sign_and_execute
lifi_unlock_lem h request s ss = (ground arith, λ e. ground (arith, e))
