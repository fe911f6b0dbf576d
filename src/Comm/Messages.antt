-- ===== src/Comm/Messages.antt =====
-- comm/messages.go: the kinds of messages and the names of the long-lived sessions.
use sprinter_signing.Base.{
  ℕ, ◌≤◌, ◌≡◌, refl, ap, true, Option, some, List, [], ◌∷◌, arith, ◌==◌, ==_iff, ◌↔◌, get_elem?,
}
use sprinter_signing.Base.Dict.{Key}
use sprinter_signing.Base.Text.{Text, bytes}

pub data MessageType : Type 0 where
  tss_key_gen_msg tss_key_sign_msg tss_initiate_msg tss_start_msg tss_fail_msg : MessageType
  tss_ready_msg tss_reshare_msg coordinator_election_msg coordinator_alive_msg : MessageType
  coordinator_leave_msg coordinator_select_msg coordinator_ping_msg : MessageType
  coordinator_ping_response_msg signature_msg across_msg sprinter_credit_msg : MessageType
  lighter_msg lifi_escrow_msg lifi_unlock_msg unknown : MessageType

-- The value that `iota` gives each constant.
unfoldable pub number : MessageType → ℕ
number tss_key_gen_msg = 0
number tss_key_sign_msg = 1
number tss_initiate_msg = 2
number tss_start_msg = 3
number tss_fail_msg = 4
number tss_ready_msg = 5
number tss_reshare_msg = 6
number coordinator_election_msg = 7
number coordinator_alive_msg = 8
number coordinator_leave_msg = 9
number coordinator_select_msg = 10
number coordinator_ping_msg = 11
number coordinator_ping_response_msg = 12
number signature_msg = 13
number across_msg = 14
number sprinter_credit_msg = 15
number lighter_msg = 16
number lifi_escrow_msg = 17
number lifi_unlock_msg = 18
number unknown = 19

abbrev all_types : List MessageType
all_types =
    tss_key_gen_msg ∷ tss_key_sign_msg ∷ tss_initiate_msg ∷ tss_start_msg ∷ tss_fail_msg
    ∷ tss_ready_msg ∷ tss_reshare_msg ∷ coordinator_election_msg ∷ coordinator_alive_msg
    ∷ coordinator_leave_msg ∷ coordinator_select_msg ∷ coordinator_ping_msg
    ∷ coordinator_ping_response_msg ∷ signature_msg ∷ across_msg ∷ sprinter_credit_msg ∷ lighter_msg
    ∷ lifi_escrow_msg ∷ lifi_unlock_msg ∷ unknown ∷ []

-- The conversion `MessageType(n)` for the numbers up to `Unknown`.
unfoldable pub of_number : ℕ → Option MessageType
of_number n = get_elem? all_types n

pub of_number-number : (t : MessageType) → of_number (number t) ≡ some t
unfolding of_number number
of_number-number tss_key_gen_msg = refl
of_number-number tss_key_sign_msg = refl
of_number-number tss_initiate_msg = refl
of_number-number tss_start_msg = refl
of_number-number tss_fail_msg = refl
of_number-number tss_ready_msg = refl
of_number-number tss_reshare_msg = refl
of_number-number coordinator_election_msg = refl
of_number-number coordinator_alive_msg = refl
of_number-number coordinator_leave_msg = refl
of_number-number coordinator_select_msg = refl
of_number-number coordinator_ping_msg = refl
of_number-number coordinator_ping_response_msg = refl
of_number-number signature_msg = refl
of_number-number across_msg = refl
of_number-number sprinter_credit_msg = refl
of_number-number lighter_msg = refl
of_number-number lifi_escrow_msg = refl
of_number-number lifi_unlock_msg = refl
of_number-number unknown = refl

pub number-le : (t : MessageType) → number t ≤ 19
unfolding number
number-le t = ground arith

pub type_same_iff : (s t : MessageType) → ((number s == number t) ≡ true) ↔ (s ≡ t)
type_same_iff s t = (
  λ e. cc (of_number-number s, of_number-number t, ap of_number ((==_iff _ _).0 e)),
  λ e. (==_iff _ _).1 (ap number e),
)

instance abbrev pub type_key : Key MessageType
type_key = record { same = λ s t. number s == number t; same_iff = type_same_iff }

-- `String()`, which is also the type under which a message reaches its handler.
unfoldable pub type_name : MessageType → Text
type_name tss_key_gen_msg = bytes "TssKeyGenMsg"
type_name tss_key_sign_msg = bytes "TssKeySignMsg"
type_name tss_initiate_msg = bytes "TssInitiateMsg"
type_name tss_start_msg = bytes "TssStartMsg"
type_name tss_fail_msg = bytes "TssFailMsg"
type_name tss_ready_msg = bytes "TssReadyMsg"
type_name tss_reshare_msg = bytes "TssReshareMsg"
type_name coordinator_election_msg = bytes "CoordinatorElectionMsg"
type_name coordinator_alive_msg = bytes "CoordinatorAliveMsg"
type_name coordinator_leave_msg = bytes "CoordinatorLeaveMsg"
type_name coordinator_select_msg = bytes "CoordinatorSelectMsg"
type_name coordinator_ping_msg = bytes "CoordinatorPingMsg"
type_name coordinator_ping_response_msg = bytes "CoordinatorPingResponseMsg"
type_name across_msg = bytes "AcrossMsg"
type_name sprinter_credit_msg = bytes "SprinterCreditMsg"
type_name lighter_msg = bytes "LighterMsg"
type_name lifi_escrow_msg = bytes "LifiEscrowMsg"
type_name lifi_unlock_msg = bytes "LifiUnlockMsg"
type_name _ = bytes "UnknownMsg"

abbrev pub signature_session_id : Text
signature_session_id = bytes "signatures"

abbrev pub across_session_id : Text
across_session_id = bytes "across"

abbrev pub sprinter_credit_session_id : Text
sprinter_credit_session_id = bytes "sprinter-credit"

abbrev pub lifi_escrow_session_id : Text
lifi_escrow_session_id = bytes "lifi-escrow"

abbrev pub lighter_session_id : Text
lighter_session_id = bytes "lighter"

abbrev pub lifi_unlock_session_id : Text
lifi_unlock_session_id = bytes "lifi-unlock"
