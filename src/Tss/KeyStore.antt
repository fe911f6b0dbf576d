-- ===== src/Tss/KeyStore.antt =====
-- keyshare/ecdsa.go: the file with the key share, and the mutex that key generation and resharing hold.
-- Reading and writing the file is a parameter, which a test instantiates.
use sprinter_signing.Base.{Bool, true, false, Option, none, some, Result, ok, err, if◌then◌else◌}
use sprinter_signing.Tss.Process.{TssError, failure, Keyshare}

-- The state of a store: whether its mutex is held, and the key share in its file.
pub record KeyStore : Type 0 where
  pub held : Bool
  pub file : Option Keyshare

-- What a sequence of calls comes to. A lock of a held mutex waits; the unlock of a free one ends the
-- program, which Go does not let a caller recover from.
pub data Outcome : Type 0 where
  done : KeyStore → Outcome
  blocked : Outcome
  fatal : Outcome

infixl 5 ◌and_then◌
abbrev pub ◌and_then◌ : Outcome → (KeyStore → Outcome) → Outcome
done s and_then next = next s
blocked and_then next = blocked
fatal and_then next = fatal

unfoldable pub lock_keyshare : KeyStore → Outcome
lock_keyshare s = if s.held then blocked else done (record s { held = true })

unfoldable pub unlock_keyshare : KeyStore → Outcome
unlock_keyshare s = if s.held then done (record s { held = false }) else fatal

-- `StoreKeyshare`, where the file can be written.
unfoldable pub store_keyshare : Keyshare → KeyStore → KeyStore
store_keyshare k s = record s { file = some k }

-- `GetKeyshare`
unfoldable pub get_keyshare : KeyStore → Result TssError Keyshare
get_keyshare s = elim s.file [ some k ↦ ok k | none ↦ err (failure 0) ]
