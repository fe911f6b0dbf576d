-- ===== src/Api/Unlock.antt =====
-- api/handlers/unlock.go: `UnlockHandler`, and the lookup of api/handlers/confirmations.go. What arrives
-- first on the signature channel, or nothing before the timeout, is a parameter.
use sprinter_signing.Base.{
  ℕ, ◌<◌, ◌≡◌, true, not, Option, none, some, List, [], ◌∷◌, arith, ◌==◌, if◌then◌else◌, contains,
  Result, ok, err, ◌>>=◌, ◌>>◌, guard,
}
use sprinter_signing.Base.Dict.{Dict, lookup, nat_key}
use sprinter_signing.Base.Text.{Text, text_eq}
use sprinter_signing.Chains.Confirmations.{Buckets}
use sprinter_signing.Chains.LifiUnlock.{LifiUnlockData}
use sprinter_signing.Api.Numbers.{
  chain_id_of, ApiError, invalid_body, missing_chain_id, chain_not_supported, invalid_protocol,
  Response, bad_request, internal_error, signature,
}
use sprinter_signing.Api.Signing.{lifi_escrow_protocol, Hex}

pub record UnlockBody : Type 0 where
  pub protocol : Text
  pub order_id : Text
  pub settler : Text

-- `validate`
unfoldable pub validate : List ℕ → Text → Result ApiError ℕ
unfolding chain_id_of
validate chains chain_text = do
  chain ← chain_id_of chain_text
  guard (not (chain == 0)) missing_chain_id
  guard (contains chains chain) chain_not_supported
  ok chain

-- What the channel gives: a signature (its ID and its bytes), a value of another type, or nothing in time.
pub data Received : Type 0 where
  signed : Text → Text → Received
  other_value timeout : Received

abbrev pub answer : (Text → Text) → Received → Response
answer encode_hex (signed id sig) = signature id (encode_hex sig)
answer encode_hex other_value = internal_error
answer encode_hex timeout = internal_error

abbrev pub dispatch :
    Hex
    → (Text → Text)
    → UnlockBody
    → (LifiUnlockData → Received)
    → Result ApiError ℕ
    → List (ℕ × LifiUnlockData) × Response
dispatch hex encode_hex b receive (err e) = ([], bad_request e)
dispatch hex encode_hex b receive (ok chain) =
    let m : LifiUnlockData = record {
      order_id = b.order_id;
      settler = hex.to_address b.settler;
      coordinator = 0;
    } in
    if text_eq b.protocol lifi_escrow_protocol
    then ((chain, m) ∷ [], answer encode_hex (receive m))
    else ([], bad_request invalid_protocol)

-- `HandleUnlock`
unfoldable pub handle_unlock :
    Hex
    → (Text → Text)
    → List ℕ
    → Text
    → Option UnlockBody
    → (LifiUnlockData → Received)
    → List (ℕ × LifiUnlockData) × Response
unfolding validate
handle_unlock hex encode_hex chains chain_text none receive = ([], bad_request invalid_body)
handle_unlock hex encode_hex chains chain_text (some b) receive =
    dispatch hex encode_hex b receive (validate chains chain_text)

-- A signature is returned only for a request of the one protocol on a supported chain, for which one
-- message was sent: it is the signature that came for it, with its ID. The relayer that gets the
-- message becomes its coordinator.
pub handle_unlock_lem :
    (hex : Hex) (encode_hex : Text → Text) (chains : List ℕ) (chain_text : Text) (b : UnlockBody)
    (receive : LifiUnlockData → Received) (id sig : Text) (chain : ℕ) (m : LifiUnlockData)
    (ms : List (ℕ × LifiUnlockData))
    → let (messages, response) = handle_unlock hex encode_hex chains chain_text (some b) receive in
      (response ≡ signature id sig → messages ≡ [] → ⊥)
      × (messages ≡ (chain, m) ∷ ms
          → (ms ≡ [])
            × (response ≡ answer encode_hex (receive m))
            × (chain_id_of chain_text ≡ ok chain)
            × (contains chains chain ≡ true)
            × (0 < chain)
            × (m.order_id ≡ b.order_id)
            × (m.coordinator ≡ 0))
unfolding handle_unlock validate
handle_unlock_lem hex encode_hex chains chain_text b receive id sig chain m ms =
    (λ r e. ground (arith, r, e), λ e. ground (arith, e))

-- `ConfirmationsHandler.HandleRequest`
unfoldable pub confirmations_of : Dict ℕ Buckets → Text → Result ApiError Buckets
unfolding chain_id_of
confirmations_of by_chain chain_text = do
  chain ← chain_id_of chain_text
  elim (lookup chain by_chain) [ some b ↦ ok b | none ↦ err chain_not_supported ]
