-- ===== src/Comm/SubscriptionId.antt =====
-- comm/subID.go: the text form of a subscription, "sessionID-messageType-identifier".
use sprinter_signing.Base.{
  ℕ, ◌+◌, ◌≤◌, ◌<◌, ◌≡◌, ◌≢◌, refl, ap, not, true, false, Option, none, some, List, [], ◌∷◌, ◌++◌,
  arith, ltb, ◌==◌, if◌then◌else◌, Result, ok, err, or_fail, guard, ◌>>=◌, ◌>>◌, contains, length,
}
use sprinter_signing.Base.Text.{
  Text, decimal, read_digits, read_digits-decimal, decimal_only_digits, decimal_not_empty,
  split_at_byte, split_at_byte-first, split_at_byte-last, count_byte, count_byte-append,
  count_byte-pos, length-split_at_byte, count_byte_none,
}
use sprinter_signing.Comm.Messages.{
  MessageType, unknown, number, of_number, of_number-number, number-le,
}

pub data SubscriptionError : Type 0 where
  invalid_subscription_id bad_message_type invalid_message_type : SubscriptionError

abbrev pub dash : ℕ
dash = 45

-- `time.Now().UnixNano()` is the argument `now`.
unfoldable pub new_subscription_id : Text → MessageType → ℕ → Text
new_subscription_id session_id msg_type now =
    session_id ++ dash ∷ (decimal (number msg_type) ++ dash ∷ decimal now)

-- `strconv.ParseInt(s, 10, 8)` on a part of a text split at '-': the one sign it can hold is '+'.
unsigned : Text → Option ℕ
unsigned [] = none
unsigned (c ∷ cs) = read_digits 0 (c ∷ cs)

signed : Text → Option ℕ
unfolding unsigned
signed [] = none
signed (c ∷ cs) = if c == 43 then unsigned cs else unsigned (c ∷ cs)

in_int8 : Option ℕ → Option ℕ
in_int8 none = none
in_int8 (some n) = if ltb 127 n then none else some n

unfoldable pub parse_int8 : Text → Option ℕ
unfolding signed in_int8
parse_int8 t = in_int8 (signed t)

-- `Unwrap` after the split: the number of parts, then the message type.
unwrap_parts : List Text → Result SubscriptionError (Text × MessageType × Text)
unfolding parse_int8
unwrap_parts (session_id ∷ msg_type ∷ identifier ∷ []) = do
  n ← or_fail (parse_int8 msg_type) bad_message_type
  guard (not (ltb 19 n)) invalid_message_type
  t ← or_fail (of_number n) invalid_message_type
  ok (session_id, t, identifier)
unwrap_parts _ = err invalid_subscription_id

unfoldable pub unwrap : Text → Result SubscriptionError (Text × MessageType × Text)
unfolding unwrap_parts
unwrap id = unwrap_parts (split_at_byte dash id)

abbrev or_empty : Result SubscriptionError (Text × MessageType × Text) → Text × MessageType × Text
or_empty (ok parts) = parts
or_empty (err e) = ([], unknown, [])

-- `SessionID()`, `MessageType()` and `SubscriptionIdentifier()`: "" or `Unknown` on an error.
unfoldable pub session_id_of : Text → Text
unfolding unwrap
session_id_of id = (or_empty (unwrap id)).0

unfoldable pub message_type_of : Text → MessageType
unfolding unwrap
message_type_of id = (or_empty (unwrap id)).1

unfoldable pub subscription_identifier : Text → Text
unfolding unwrap
subscription_identifier id = (or_empty (unwrap id)).2

parse_int8-digits :
    (t : Text) (n : ℕ)
    → t ≢ []
    → contains t 43 ≡ false
    → read_digits 0 t ≡ some n
    → n ≤ 127
    → parse_int8 t ≡ some n
unfolding parse_int8
parse_int8-digits [] n ne c r h = absurd (ne refl)
parse_int8-digits (x ∷ xs) n ne c r h = ground arith

-- The ID of a subscription to a session without a dash gives back the session, the message type and
-- the printed time, which is its identifier.
pub unwrap-new_subscription_id :
    (sid : Text) (t : MessageType) (now : ℕ)
    → contains sid dash ≡ false
    → unwrap (new_subscription_id sid t now) ≡ ok (sid, t, decimal now)
unfolding unwrap new_subscription_id
unwrap-new_subscription_id sid t now h =
    rw
      (
        split_at_byte-first dash sid (decimal (number t) ++ dash ∷ decimal now) h,
        split_at_byte-first dash (decimal (number t)) (decimal now)
            (decimal_only_digits _ dash (omega arith)),
        split_at_byte-last dash (decimal now) (decimal_only_digits _ dash (omega arith)),
      )
      (ground (
        arith,
        parse_int8-digits (decimal (number t)) (number t) (decimal_not_empty _)
            (decimal_only_digits (number t) 43 (omega arith)) (read_digits-decimal (number t))
            (omega (arith, number-le t)),
        number-le t,
        of_number-number t,
      ))

unwrap_parts-many : (ps : List Text) → 3 < length ps → unwrap_parts ps ≡ err invalid_subscription_id
unfolding unwrap_parts
unwrap_parts-many [] h = refl
unwrap_parts-many (a ∷ []) h = refl
unwrap_parts-many (a ∷ b ∷ []) h = refl
unwrap_parts-many (a ∷ b ∷ c ∷ []) h = absurd (omega arith)
unwrap_parts-many (a ∷ b ∷ c ∷ d ∷ ps) h = refl

count_dashes :
    (sid : Text) (n m : ℕ)
    → count_byte dash (sid ++ dash ∷ (decimal n ++ dash ∷ decimal m)) ≡ count_byte dash sid + 2
unfolding count_byte
count_dashes sid n m = omega (
  arith,
  count_byte-append dash sid (dash ∷ (decimal n ++ dash ∷ decimal m)),
  count_byte-append dash (decimal n) (dash ∷ decimal m),
  count_byte_none dash (decimal n) (decimal_only_digits n dash (omega arith)),
  count_byte_none dash (decimal m) (decimal_only_digits m dash (omega arith)),
)

-- The ID of a subscription to a session with a dash has more than three parts, so it does not unwrap.
pub unwrap-dashed :
    (sid : Text) (t : MessageType) (now : ℕ)
    → contains sid dash ≡ true
    → unwrap (new_subscription_id sid t now) ≡ err invalid_subscription_id
unfolding unwrap new_subscription_id
unwrap-dashed sid t now h = unwrap_parts-many (split_at_byte dash (new_subscription_id sid t now)) (
    omega (
      arith,
      length-split_at_byte dash (new_subscription_id sid t now),
      count_dashes sid (number t) now,
      count_byte-pos dash sid h,
    ))

pub identifier-new :
    (sid : Text) (t : MessageType) (now : ℕ)
    → contains sid dash ≡ false
    → subscription_identifier (new_subscription_id sid t now) ≡ decimal now
unfolding subscription_identifier
identifier-new sid t now h = ap (λ r. (or_empty r).2) (unwrap-new_subscription_id sid t now h)

pub identifier-dashed :
    (sid : Text) (t : MessageType) (now : ℕ)
    → contains sid dash ≡ true
    → subscription_identifier (new_subscription_id sid t now) ≡ []
unfolding subscription_identifier
identifier-dashed sid t now h = ap (λ r. (or_empty r).2) (unwrap-dashed sid t now h)
