-- ===== src/Api/Numbers.antt =====
-- Numbers in the paths of requests, and the errors of the handlers of api/handlers/: `SetString(s, 10)`
-- and `Uint64` of a big.Int, which keeps the low 64 bits.
use sprinter_signing.Base.{
  ℕ, ◌%◌, ◌^◌, ◌<◌, ◌≡◌, refl, Option, none, some, [], ◌∷◌, arith, ◌==◌, if◌then◌else◌, Result, ok,
  ◌>>=◌, or_fail, zero, suc,
}
use sprinter_signing.Base.Int.{ℤ, pos, negsuc, magnitude}
use sprinter_signing.Base.Text.{
  Text, read_digits, read_digits-decimal, decimal, decimal_not_empty, decimal_only_digits,
}

abbrev negated : ℕ → ℤ
negated zero = pos 0
negated (suc n) = negsuc n

abbrev as_int : Option ℕ → Option ℤ
as_int none = none
as_int (some n) = some (pos n)

abbrev as_negative : Option ℕ → Option ℤ
as_negative none = none
as_negative (some n) = some (negated n)

digits : Text → Option ℕ
unfolding read_digits
digits [] = none
digits (c ∷ cs) = read_digits 0 (c ∷ cs)

-- `SetString(s, 10)`: a sign and at least one digit.
unfoldable pub set_string : Text → Option ℤ
unfolding digits
set_string [] = none
set_string (c ∷ cs) =
    if c == 43
    then as_int (digits cs)
    else if c == 45
    then as_negative (digits cs)
    else as_int (digits (c ∷ cs))

unfoldable pub uint64 : ℤ → ℕ
uint64 z = magnitude z % 2 ^ 64

-- The reasons for status 400, and the status of each answer.
pub data ApiError : Type 0 where
  invalid_body invalid_chain_id missing_deposit_id missing_liquidity_pool missing_caller
        missing_nonce :
      ApiError
  missing_chain_id missing_deadline chain_not_supported invalid_protocol : ApiError

pub data Response : Type 0 where
  bad_request : ApiError → Response
  internal_error : Response
  accepted : Response
  signature : Text → Text → Response
  panics : Response

-- The checks of the chain: `read` is the number in the path, and the first check; the others follow.
unfoldable pub chain_id_of : Text → Result ApiError ℕ
unfolding set_string uint64
chain_id_of text = do z ← or_fail (set_string text) invalid_chain_id; ok (uint64 z)

-- A number of 64 bits in a path is read as itself.
pub chain_id_of-decimal : (n : ℕ) → n < 2 ^ 64 → chain_id_of (decimal n) ≡ ok n
unfolding chain_id_of set_string digits uint64
chain_id_of-decimal n h = step (decimal n) refl
  where
    step : (t : Text) → decimal n ≡ t → chain_id_of (decimal n) ≡ ok n
    step [] e = absurd (decimal_not_empty n e)
    step (c ∷ cs) e =
        ground
          (arith, h, e, read_digits-decimal n, decimal_only_digits n 43, decimal_only_digits n 45)

-- A printed natural number reads back, and so does a negative number behind its sign.
pub set_string-decimal : (n : ℕ) → set_string (decimal n) ≡ some (pos n)
unfolding set_string digits
set_string-decimal n = step (decimal n) refl
  where
    step : (t : Text) → decimal n ≡ t → set_string (decimal n) ≡ some (pos n)
    step [] e = absurd (decimal_not_empty n e)
    step (c ∷ cs) e =
        ground (arith, e, read_digits-decimal n, decimal_only_digits n 43, decimal_only_digits n 45)

pub set_string-minus : (n : ℕ) → set_string (45 ∷ decimal (suc n)) ≡ some (negsuc n)
unfolding set_string digits
set_string-minus n = step (decimal (suc n)) refl
  where
    step : (t : Text) → decimal (suc n) ≡ t → set_string (45 ∷ decimal (suc n)) ≡ some (negsuc n)
    step [] e = absurd (decimal_not_empty (suc n) e)
    step (c ∷ cs) e = ground (arith, e, read_digits-decimal (suc n))
