-- ===== src/Api/BigInts.antt =====
-- api/handlers/util.go: the numbers of any size in the bodies of requests, as numbers or as strings of
-- JSON.
use sprinter_signing.Base.{
  ℕ, ◌≡◌, refl, ap, ◌∙◌, false, Option, none, some, [], ◌∷◌, ◌++◌, arith, ◌==◌, if◌then◌else◌,
  contains, suc,
}
use sprinter_signing.Base.Int.{ℤ, pos, negsuc}
use sprinter_signing.Base.Text.{Text, bytes, decimal_only_digits}
use sprinter_signing.Api.Numbers.{set_string, set_string-decimal, set_string-minus}
use sprinter_signing.Chains.Handler.{signed_decimal}

-- The double quote.
abbrev pub quote : ℕ
quote = 34

abbrev pub trim_left : Text → Text
trim_left [] = []
trim_left (c ∷ t) = if c == quote then trim_left t else c ∷ t

abbrev before_quotes : ℕ → Text → Text
before_quotes c [] = if c == quote then [] else c ∷ []
before_quotes c (d ∷ t) = c ∷ d ∷ t

abbrev pub trim_right : Text → Text
trim_right [] = []
trim_right (c ∷ t) = before_quotes c (trim_right t)

-- `strings.Trim(s, "\"")`
abbrev pub trim_quotes : Text → Text
trim_quotes t = trim_right (trim_left t)

-- `UnmarshalJSON`
unfoldable pub unmarshal_big_int : Text → Option ℤ
unmarshal_big_int json = set_string (trim_quotes json)

-- `MarshalJSON`, which is called on a nil number too.
unfoldable pub marshal_big_int : Option ℤ → Text
marshal_big_int none = bytes "<nil>"
marshal_big_int (some z) = signed_decimal z

before_quotes-other : (c : ℕ) (t : Text) → (c == quote) ≡ false → before_quotes c t ≡ c ∷ t
before_quotes-other c [] h = ground (arith, h)
before_quotes-other c (d ∷ t) h = refl

trim_right-unquoted : (t : Text) → contains t quote ≡ false → trim_right t ≡ t
trim_right-unquoted [] h = refl
trim_right-unquoted (c ∷ t) h =
    ap (before_quotes c) (trim_right-unquoted t (ground (arith, h)))
    ∙ before_quotes-other c t (ground (arith, h))

trim_right-quoted : (t : Text) → contains t quote ≡ false → trim_right (t ++ quote ∷ []) ≡ t
trim_right-quoted [] h = ground arith
trim_right-quoted (c ∷ t) h =
    ap (before_quotes c) (trim_right-quoted t (ground (arith, h)))
    ∙ before_quotes-other c t (ground (arith, h))

trim_quotes-unquoted : (t : Text) → contains t quote ≡ false → trim_quotes t ≡ t
trim_quotes-unquoted [] h = refl
trim_quotes-unquoted (c ∷ t) h =
    ap trim_right {x = trim_left (c ∷ t)} {y = c ∷ t} (ground (arith, h))
    ∙ trim_right-unquoted (c ∷ t) h

trim_quotes-quoted :
    (t : Text) → contains t quote ≡ false → trim_quotes (quote ∷ t ++ quote ∷ []) ≡ t
trim_quotes-quoted [] h = refl
trim_quotes-quoted (c ∷ t) h =
    ap trim_right {x = trim_left (c ∷ t ++ quote ∷ [])} {y = c ∷ t ++ quote ∷ []}
      (ground (arith, h))
    ∙ trim_right-quoted (c ∷ t) h

unquoted : (z : ℤ) → contains (signed_decimal z) quote ≡ false
unquoted (pos n) = decimal_only_digits n quote (omega arith)
unquoted (negsuc n) = ground (arith, decimal_only_digits (suc n) quote)

set_string-signed_decimal : (z : ℤ) → set_string (signed_decimal z) ≡ some z
set_string-signed_decimal (pos n) = set_string-decimal n
set_string-signed_decimal (negsuc n) = set_string-minus n

-- A number that is written into JSON, as a number or within quotes, is read as itself.
pub unmarshal_big_int-marshal_big_int :
    (z : ℤ)
    → (unmarshal_big_int (marshal_big_int (some z)) ≡ some z)
      × (unmarshal_big_int (quote ∷ marshal_big_int (some z) ++ quote ∷ []) ≡ some z)
unfolding unmarshal_big_int marshal_big_int
unmarshal_big_int-marshal_big_int z =
    let t = signed_decimal z in
    (
      ap set_string (trim_quotes-unquoted t (unquoted z)) ∙ set_string-signed_decimal z,
      ap set_string (trim_quotes-quoted t (unquoted z)) ∙ set_string-signed_decimal z,
    )
