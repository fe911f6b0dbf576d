-- ===== src/Chains/Handler.antt =====
-- What the message handlers of chains/evm/message/ and chains/lighter/message/ share: a handler's run is
-- the calls that it makes on others, in order, and the result that it returns. `ErrChn`, the channel on
-- which the API waits, is one of the others. The libraries and services that a handler asks are a record.
use sprinter_signing.Base.{
  arith, ◌≡◌, ℕ, suc, ◌%◌, ◌^◌, Option, none, some, List, [], ◌∷◌, ◌++◌, ◌==◌, if◌then◌else◌,
  Result, ok, err,
}
use sprinter_signing.Base.Int.{ℤ, pos, negsuc, is_gt_ℕ}
use sprinter_signing.Base.Text.{
  Text, bytes, decimal, separated-injective, decimal_only_digits, decimal-injective,
}
use sprinter_signing.Comm.SubscriptionId.{dash}
use sprinter_signing.Comm.Messages.{MessageType}
use sprinter_signing.Peers.{PeerId}
use sprinter_signing.Chains.Tokens.{Address, TokenError}
use sprinter_signing.Chains.Confirmations.{WatchError}

pub data HandlerError : Type 0 where
  invalid_repayment_chain : ℕ → HandlerError
  token_error : TokenError → HandlerError
  watch_error : WatchError → HandlerError
  borrow_exceeds_input : HandlerError
  many_inputs many_outputs : HandlerError
  no_liquidator : Address → HandlerError
  invalid_tx_type invalid_account only_usdc exceeds_buckets : HandlerError
  panicked : HandlerError
  external : ℕ → HandlerError

-- A send on `ErrChn`, `notify`'s broadcast of a payload for a session, and `Execute` of a new signing of a hash.
pub data Effect : Type 0 where
  reply : Option HandlerError → Effect
  broadcast : MessageType → Text → Text → Effect
  sign : Text → ℕ → PeerId → Effect

pub record Handled (A : Type 0) : Type 0 where
  pub effects : List Effect
  pub result : Result HandlerError A

abbrev pub and_also : {A : Type 0} → List Effect → Handled A → Handled A
and_also es h = record { effects = es ++ h.effects; result = h.result }

infixl 5 ◌>>=◌ ◌>>◌
abbrev pub after :
    {A B : Type 0} → List Effect → Result HandlerError A → (A → Handled B) → Handled B
after es (ok a) f = and_also es (f a)
after es (err e) f = record { effects = es; result = err e }

abbrev pub ◌>>=◌ : {A B : Type 0} → Handled A → (A → Handled B) → Handled B
h >>= f = after h.effects h.result f

abbrev pub ◌>>◌ : {B : Type 0} → Handled (Unit {0}) → Handled B → Handled B
h >> k = h >>= λ _. k

-- `if err != nil { return nil, err }`
abbrev pub returned : {A : Type 0} → Result HandlerError A → Handled A
returned r = record { effects = []; result = r }

-- `if err != nil { data.ErrChn <- err; return nil, err }`
abbrev pub or_reply : {A : Type 0} → Result HandlerError A → Handled A
or_reply (ok a) = record { effects = []; result = ok a }
or_reply (err e) = record { effects = reply (some e) ∷ []; result = err e }

abbrev pub perform : Effect → Handled (Unit {0})
perform e = record { effects = e ∷ []; result = ok tt }

-- The arguments of `BorrowUnlockHash`.
pub record Borrow : Type 0 where
  pub calldata : Text
  pub amount : ℤ
  pub token : Address
  pub chain_id : ℕ
  pub target : Address
  pub deadline : ℕ
  pub caller : Address
  pub liquidity_pool : Address
  pub nonce : ℤ

-- The host, EIP-712 hashing, and what `NewSigning` and `Execute` return for a session and a hash.
pub record Services : Type 0 where
  pub host_id : PeerId
  pub borrow_unlock_hash : Borrow → Result HandlerError ℕ
  pub new_signing : Text → ℕ → Result HandlerError (Unit {0})
  pub execute : Text → ℕ → PeerId → Result HandlerError (Unit {0})

-- `%d` of a big.Int, and `%s` of a pointer to one, which may be nil.
abbrev pub signed_decimal : ℤ → Text
signed_decimal (pos n) = decimal n
signed_decimal (negsuc n) = dash ∷ decimal (suc n)

abbrev pub big_text : Option ℤ → Text
big_text none = bytes "<nil>"
big_text (some z) = signed_decimal z

-- `fmt.Sprintf("%d-%s", n, s)`
abbrev pub session_of : ℕ → Text → Text
session_of n s = decimal n ++ dash ∷ s

abbrev pub broadcast_payload : MessageType → Text → Option Text → List Effect
broadcast_payload type session none = []
broadcast_payload type session (some payload) = broadcast type session payload ∷ []

-- `notify`: a relayer that got the request itself, without a coordinator, becomes its coordinator and
-- tells the others; `marshal` encodes the data with a coordinator. The caller only logs a failure of the
-- encoding or of the broadcast. The result is the coordinator that the data has then.
unfoldable pub notify :
    Services → MessageType → Text → (PeerId → Option Text) → PeerId → Handled PeerId
notify services type session marshal coordinator =
    if coordinator == 0
    then record {
      effects = broadcast_payload type session (marshal services.host_id);
      result = ok services.host_id;
    }
    else record { effects = []; result = ok coordinator }

-- The end of each handler: `NewSigning` and `Execute`.
unfoldable pub sign_and_execute : Services → Text → ℕ → PeerId → Handled (Unit {0})
sign_and_execute services session hash coordinator = do
  returned (services.new_signing session hash)
  perform (sign session hash coordinator)
  returned (services.execute session hash coordinator)

-- What the API sees, and what is signed.
abbrev pub replies : List Effect → List (Option HandlerError)
replies [] = []
replies (reply e ∷ es) = e ∷ replies es
replies (broadcast t s p ∷ es) = replies es
replies (sign s h c ∷ es) = replies es

abbrev pub Signed : Type 0
Signed = Text × ℕ × PeerId

abbrev pub signings : List Effect → List Signed
signings [] = []
signings (reply e ∷ es) = signings es
signings (broadcast t s p ∷ es) = signings es
signings (sign s h c ∷ es) = (s, h, c) ∷ signings es

abbrev pub broadcasts : List Effect → List (MessageType × Text × Text)
broadcasts [] = []
broadcasts (reply e ∷ es) = broadcasts es
broadcasts (broadcast t s p ∷ es) = (t, s, p) ∷ broadcasts es
broadcasts (sign s h c ∷ es) = broadcasts es

-- `common.BytesToAddress`, which keeps the last 20 bytes.
abbrev pub bytes_to_address : ℕ → Address
bytes_to_address n = n % 2 ^ 160

-- A key that a Go map lacks has the zero value.
abbrev pub or_zero : Option Address → Address
or_zero none = 0
or_zero (some a) = a

abbrev pub from_tokens {κ} : {A : Type κ} → Result TokenError A → Result HandlerError A
from_tokens (ok a) = ok a
from_tokens (err e) = err (token_error e)

-- The guard on the borrowed amount.
abbrev pub within_input : ℤ → ℕ → Result HandlerError (Unit {0})
within_input borrow scaled = if is_gt_ℕ borrow scaled then err borrow_exceeds_input else ok tt

-- A call returned a value, which satisfies a predicate.
abbrev pub HoldsFor {ℓ κ} : {E : Type ℓ} {A : Type κ} → Result E A → (A → Type 0) → Type 0
HoldsFor (ok a) P = P a
HoldsFor (err e) P = ⊥

-- The sessions of two deposits are the same only if the deposits have the same chain and the same ID,
-- whatever the ID holds.
pub session_of-injective :
    (m n : ℕ) (s t : Text) → session_of m s ≡ session_of n t → (m ≡ n) × (s ≡ t)
session_of-injective m n s t e =
    let (digits, rest) =
      separated-injective dash (decimal m) (decimal n) s t
        (decimal_only_digits m dash (omega arith)) (decimal_only_digits n dash (omega arith)) e in
    (decimal-injective m n digits, rest)
