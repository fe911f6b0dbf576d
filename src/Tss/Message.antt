-- ===== src/Tss/Message.antt =====
-- tss/message/message.go: the payloads of the TSS messages. encoding/json is a parameter: what it
-- writes for a value and what it reads from bytes.
use sprinter_signing.Base.{Bool, Result, ok, ◌>>=◌}
use sprinter_signing.Base.Text.{Text}
use sprinter_signing.Tss.Process.{TssError}

pub record Json (A : Type 0) : Type 0 where
  pub marshal : A → Result TssError Text
  pub unmarshal : Text → Result TssError A

pub record TssMessage : Type 0 where
  pub msg_bytes : Text
  pub is_broadcast : Bool

pub record StartMessage : Type 0 where
  pub params : Text

pub record SignatureMessage : Type 0 where
  pub signature : Text
  pub id : Text

unfoldable pub marshal_tss_message : Json TssMessage → Text → Bool → Result TssError Text
marshal_tss_message json msg_bytes is_broadcast = do
  encoded ← json.marshal (record { msg_bytes = msg_bytes; is_broadcast = is_broadcast })
  ok encoded

unfoldable pub unmarshal_tss_message : Json TssMessage → Text → Result TssError TssMessage
unmarshal_tss_message json msg_bytes = do msg ← json.unmarshal msg_bytes; ok msg

unfoldable pub marshal_start_message : Json StartMessage → Text → Result TssError Text
marshal_start_message json params = do
  encoded ← json.marshal (record { params = params })
  ok encoded

unfoldable pub unmarshal_start_message : Json StartMessage → Text → Result TssError StartMessage
unmarshal_start_message json msg_bytes = do msg ← json.unmarshal msg_bytes; ok msg

unfoldable pub marshal_signature_message :
    Json SignatureMessage → Text → Text → Result TssError Text
marshal_signature_message json id signature = do
  encoded ← json.marshal (record { signature = signature; id = id })
  ok encoded

unfoldable pub unmarshal_signature_message :
    Json SignatureMessage → Text → Result TssError SignatureMessage
unmarshal_signature_message json msg_bytes = do msg ← json.unmarshal msg_bytes; ok msg
