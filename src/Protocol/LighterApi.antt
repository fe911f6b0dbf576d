-- ===== src/Protocol/LighterApi.antt =====
-- protocol/lighter/api.go: the transactions of the Lighter chain, and when a request for one is repeated.
-- encoding/json and the HTTP client with its retries are parameters.
use sprinter_signing.Base.{
  ℕ, ◌≡◌, ◌≢◌, Bool, true, false, ◌||◌, ◌&&◌, Option, none, some, [], ◌++◌, arith, Result, ok, err,
  ◌>>=◌, ◌>>◌, guard, or_fail, ◌==◌, if◌then◌else◌,
}
use sprinter_signing.Base.Text.{Text, bytes, text_eq, text_eq_iff}
use sprinter_signing.Chains.Lighter.{LighterTx, Transfer}
use sprinter_signing.Protocol.Http.{HttpResponse, status_ok}

abbrev pub tx_not_found_error_code : ℕ
tx_not_found_error_code = 21500

abbrev pub tx_found_status_code : ℕ
tx_found_status_code = 200

abbrev pub tx_type_l2_transfer : ℕ
tx_type_l2_transfer = 12

-- The JSON of a transaction, before `UnmarshalJSON` reads its `info`.
pub record RawTx : Type 0 where
  pub code : ℕ
  pub hash : Text
  pub type : ℕ
  pub info : Text

-- An object of any kind: its `code`, if that is a number, and its `info`, if that is a string.
pub record RawObject : Type 0 where
  pub code : Option ℕ
  pub info : Option Text

-- `decode_transfer` gives nil for the text `null`.
pub record Decoders : Type 0 where
  pub decode_tx : Text → Option RawTx
  pub decode_transfer : Text → Option (Option Transfer)
  pub decode_error_code : Text → Option ℕ
  pub decode_object : Text → Option RawObject

pub data LighterApiError : Type 0 where
  request_failed unexpected_status not_read not_json not_info : LighterApiError
  unsupported_type : ℕ → LighterApiError
  context_error : LighterApiError

-- `LighterTx.UnmarshalJSON`
unfoldable pub unmarshal_json : Decoders → Text → Result LighterApiError LighterTx
unmarshal_json json t = do
  tx ← or_fail (json.decode_tx t) not_json
  guard (tx.type == tx_type_l2_transfer) (unsupported_type tx.type)
  transfer ← or_fail (json.decode_transfer tx.info) not_info
  ok (record { hash = tx.hash; type = tx.type; transfer = transfer })

abbrev pub is_code : ℕ → Option ℕ → Bool
is_code code none = false
is_code code (some n) = n == code

abbrev pub lacks_info : Option Text → Bool
lacks_info none = true
lacks_info (some t) = text_eq t []

abbrev pub is_incomplete : Option RawObject → Bool
is_incomplete none = false
is_incomplete (some o) = is_code tx_found_status_code o.code && lacks_info o.info

-- `LighterCheckRetry`: whether the context is done, and the answer of the attempt, if there is one.
unfoldable pub lighter_check_retry :
    Decoders → Bool → Option HttpResponse → Result LighterApiError Bool
lighter_check_retry json cancelled response =
    if cancelled then err context_error else elim response [
      | none ↦ err request_failed
      | some resp ↦
          if resp.status == status_ok
          then elim resp.body [
            | none ↦ err not_read
            | some body ↦ ok (
                is_code tx_not_found_error_code (json.decode_error_code body)
                || is_incomplete (json.decode_object body))
          ]
          else ok false
    ]

abbrev pub tx_url : Text → Text
tx_url hash = bytes "https://mainnet.zklighter.elliot.ai/api/v1/tx?by=hash&value=" ++ hash

-- `GetTx`, where `get` is the client with its retries.
unfoldable pub get_tx :
    Decoders → (Text → Option HttpResponse) → Text → Result LighterApiError LighterTx
unfolding unmarshal_json
get_tx json get hash = do
  resp ← or_fail (get (tx_url hash)) request_failed
  guard (resp.status == status_ok) unexpected_status
  body ← or_fail resp.body not_read
  unmarshal_json json body

-- A transaction that is returned is a transfer. If the last attempt was not one to be repeated, its `info`
-- was there and is that of the transfer.
pub get_tx_lem :
    (json : Decoders) (get : Text → Option HttpResponse) (hash body : Text) (tx : LighterTx)
    (raw : RawTx)
    → get (tx_url hash) ≡ some (record { status = status_ok; body = some body })
    → json.decode_tx body ≡ some raw
    → json.decode_object body ≡ some (record { code = some raw.code; info = some raw.info })
    → get_tx json get hash ≡ ok tx
    → (tx.type ≡ tx_type_l2_transfer)
      × (json.decode_transfer raw.info ≡ some tx.transfer)
      × (lighter_check_retry json false (get (tx_url hash)) ≡ ok false
          → raw.code ≡ tx_found_status_code
          → raw.info ≢ [])
unfolding get_tx unmarshal_json lighter_check_retry
get_tx_lem json get hash body tx raw g d o h = (
  ground (arith, g, d, h),
  ground (arith, g, d, h),
  λ c s. ground (arith, g, o, c, s, text_eq_iff raw.info []),
)
