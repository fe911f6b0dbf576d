-- ===== src/Tss/Process.antt =====
-- What the coordinator asks of a process (the interface `TssProcess` of tss/coordinator.go), the errors
-- that processes return, and the key share that they work with (keyshare/ecdsa.go).
use sprinter_signing.Base.{ℕ, Bool, List, Result}
use sprinter_signing.Base.Text.{Text}
use sprinter_signing.Peers.{PeerId}

-- An error as the coordinator tells errors apart: `common.ErrProcessStarted`, `*SubsetError`, the
-- errors that the coordinator makes itself, and all others, by a number.
pub data TssError : Type 0 where
  process_started : TssError
  subset_error : PeerId → TssError
  already_pending : TssError
  fail_message_received : TssError
  failure : ℕ → TssError

-- `SessionID`, `Ready`, `StartParams`, `ValidCoordinators` of a process in its current state.
pub record TssProcess : Type 0 where
  pub session_id : Text
  pub ready : List PeerId → List PeerId → Result TssError Bool
  pub start_params : List PeerId → Text
  pub valid_coordinators : List PeerId

-- `ECDSAKeyshare`, with the secret share as an opaque number.
pub record Keyshare : Type 0 where
  pub key : ℕ
  pub threshold : ℕ
  pub peers : List PeerId
