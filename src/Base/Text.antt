-- ===== src/Base/Text.antt =====
-- Go strings as lists of bytes: decimal printing (`%d`), reading decimals, splitting at a separator.
use Prim.Native.Nat.{ℕ, zero, suc, ◌+◌, ◌-◌, ◌*◌, ◌/◌, ◌%◌, ◌<◌}
use mathlib.Core.Path.{◌≡◌, refl, ap, ◌∙◌}
use mathlib.Core.Logic.{◌↔◌, ◌≢◌, inl, inr}
use mathlib.Core.Bool.{Bool, true, false, ◌&&◌}
use mathlib.Core.List.{List, [], ◌∷◌, ◌++◌}
use mathlib.Core.Option.{Option, none, some}
use native.Mathlib.Omega.{arith}
use Prim.Native.Char.{code}
use Prim.Native.String.{String}
use sprinter_signing.Base.Tests.{◌==◌, ltb, leb, if◌then◌else◌, Bool-cases}
use sprinter_signing.Base.Lists.{length, contains, contains-append}
use sprinter_signing.Base.Dict.{Key}

abbrev pub Text : Type 0
Text = List ℕ

-- The bytes of a literal, which is ASCII wherever the program writes one.
abbrev pub bytes : String → Text
bytes String.[] = []
bytes (String.◌∷◌ c s) = code c ∷ bytes s

unfoldable pub text_eq : Text → Text → Bool
text_eq [] [] = true
text_eq (a ∷ xs) (b ∷ ys) = a == b && text_eq xs ys
text_eq _ _ = false

pub text_eq_iff : (s t : Text) → (text_eq s t ≡ true) ↔ (s ≡ t)
unfolding text_eq
text_eq_iff [] [] = ground arith
text_eq_iff [] (b ∷ ys) = ground arith
text_eq_iff (a ∷ xs) [] = ground arith
text_eq_iff (a ∷ xs) (b ∷ ys) = ground (arith, text_eq_iff xs ys)

instance abbrev pub text_key : Key Text
text_key = record { same = text_eq; same_iff = text_eq_iff }

-- `%d` of a natural number. A call reaches its last digit before the fuel runs out.
unfoldable pub decimal_from : ℕ → ℕ → Text
decimal_from zero n = []
decimal_from (suc fuel) n =
    let more = decimal_from fuel (n / 10) in
    if ltb n 10 then (48 + n) ∷ [] else more ++ (48 + n % 10) ∷ []

unfoldable pub decimal : ℕ → Text
unfolding decimal_from
decimal n = decimal_from (suc n) n

-- Digits read from the left onto `acc`; `none` at a byte that is no digit.
unfoldable pub read_digits : ℕ → Text → Option ℕ
read_digits acc [] = some acc
read_digits acc (c ∷ cs) =
    if leb 48 c && leb c 57 then read_digits (acc * 10 + (c - 48)) cs else none

read_digits-snoc :
    (acc n d : ℕ) (cs : Text)
    → d < 10
    → read_digits acc cs ≡ some n
    → read_digits acc (cs ++ (48 + d) ∷ []) ≡ some (n * 10 + d)
unfolding read_digits
read_digits-snoc acc n d [] h e = ground arith
read_digits-snoc acc n d (c ∷ cs) h e =
    ground (arith, read_digits-snoc (acc * 10 + (c - 48)) n d cs)

read_digits-decimal_from : (fuel n : ℕ) → n < fuel → read_digits 0 (decimal_from fuel n) ≡ some n
unfolding decimal_from read_digits
read_digits-decimal_from zero n h = absurd (omega arith)
read_digits-decimal_from (suc fuel) n h = elim (Bool-cases (ltb n 10)) [
  | inl small ↦ rw small (ground arith)
  | inr big ↦ rw big (
      read_digits-snoc 0 (n / 10) (n % 10) (decimal_from fuel (n / 10)) (omega arith)
        (read_digits-decimal_from fuel (n / 10) (ground arith))
      ∙ ap some (omega arith))
]

-- A printed number reads back.
pub read_digits-decimal : (n : ℕ) → read_digits 0 (decimal n) ≡ some n
unfolding decimal
read_digits-decimal n = read_digits-decimal_from (suc n) n (omega arith)

decimal_from_only_digits : (fuel n c : ℕ) → c < 48 → contains (decimal_from fuel n) c ≡ false
unfolding decimal_from
decimal_from_only_digits zero n c h = refl
decimal_from_only_digits (suc fuel) n c h = ground (
  arith,
  decimal_from_only_digits fuel (n / 10) c,
  contains-append (decimal_from fuel (n / 10)) ((48 + n % 10) ∷ []) c,
)

-- A printed number holds digits only.
pub decimal_only_digits : (n c : ℕ) → c < 48 → contains (decimal n) c ≡ false
unfolding decimal
decimal_only_digits n c h = decimal_from_only_digits (suc n) n c h

pub decimal_not_empty : (n : ℕ) → decimal n ≢ []
unfolding decimal decimal_from
decimal_not_empty n = elim (Bool-cases (ltb n 10)) [
  | inl small ↦ rw small (λ e. cc)
  | inr big ↦ rw big (append_not_empty (decimal_from n (n / 10)))
]
  where
    append_not_empty : (xs : Text) → (xs ++ (48 + n % 10) ∷ []) ≢ []
    append_not_empty [] e = cc
    append_not_empty (x ∷ xs) e = cc

pub decimal-injective : (m n : ℕ) → decimal m ≡ decimal n → m ≡ n
decimal-injective m n e = cc (read_digits-decimal m, read_digits-decimal n, ap (read_digits 0) e)

-- `strings.Split` at a one-byte separator.
abbrev put_head : ℕ → List Text → List Text
put_head c [] = (c ∷ []) ∷ []
put_head c (w ∷ ws) = (c ∷ w) ∷ ws

unfoldable pub split_at_byte : ℕ → Text → List Text
split_at_byte sep [] = [] ∷ []
split_at_byte sep (c ∷ cs) =
    if c == sep then [] ∷ split_at_byte sep cs else put_head c (split_at_byte sep cs)

unfoldable pub count_byte : ℕ → Text → ℕ
count_byte sep [] = 0
count_byte sep (c ∷ cs) = if c == sep then suc (count_byte sep cs) else count_byte sep cs

pub length-split_at_byte :
    (sep : ℕ) (t : Text) → length (split_at_byte sep t) ≡ suc (count_byte sep t)
unfolding split_at_byte count_byte
length-split_at_byte sep [] = refl
length-split_at_byte sep (c ∷ cs) = ground (arith, length-split_at_byte sep cs)

pub count_byte-append :
    (sep : ℕ) (s t : Text) → count_byte sep (s ++ t) ≡ count_byte sep s + count_byte sep t
unfolding count_byte
count_byte-append sep [] t = omega arith
count_byte-append sep (c ∷ cs) t = ground (arith, count_byte-append sep cs t)

pub count_byte_none : (sep : ℕ) (t : Text) → contains t sep ≡ false → count_byte sep t ≡ 0
unfolding count_byte
count_byte_none sep [] h = refl
count_byte_none sep (c ∷ cs) h = ground (arith, count_byte_none sep cs)

pub count_byte-pos : (sep : ℕ) (t : Text) → contains t sep ≡ true → 0 < count_byte sep t
unfolding count_byte
count_byte-pos sep [] h = cc
count_byte-pos sep (c ∷ cs) h = ground (arith, count_byte-pos sep cs)

pub split_at_byte-first :
    (sep : ℕ) (s t : Text)
    → contains s sep ≡ false
    → split_at_byte sep (s ++ sep ∷ t) ≡ s ∷ split_at_byte sep t
unfolding split_at_byte
split_at_byte-first sep [] t h = ground arith
split_at_byte-first sep (c ∷ cs) t h = ground (arith, split_at_byte-first sep cs t)

pub split_at_byte-last :
    (sep : ℕ) (s : Text) → contains s sep ≡ false → split_at_byte sep s ≡ s ∷ []
unfolding split_at_byte
split_at_byte-last sep [] h = refl
split_at_byte-last sep (c ∷ cs) h = ground (arith, split_at_byte-last sep cs)

-- What stands before and after the first separator is determined by the text.
pub separated-injective :
    (sep : ℕ) (a b s t : Text)
    → contains a sep ≡ false
    → contains b sep ≡ false
    → a ++ sep ∷ s ≡ b ++ sep ∷ t
    → (a ≡ b) × (s ≡ t)
separated-injective sep [] [] s t ha hb e = (refl, cc)
separated-injective sep [] (d ∷ ds) s t ha hb e = ground arith
separated-injective sep (c ∷ cs) [] s t ha hb e = ground arith
separated-injective sep (c ∷ cs) (d ∷ ds) s t ha hb e =
    ground (arith, separated-injective sep cs ds s t)
