-- ===== src/Base/Int.antt =====
-- Signed integers. `negsuc n` is -(n + 1).
use Prim.Native.Nat.{ℕ, suc, ◌-◌, ◌%◌, ◌^◌}
use mathlib.Core.Bool.{Bool, true, false}
use sprinter_signing.Base.Tests.{leb, ltb, if◌then◌else◌}

pub data ℤ : Type 0 where
  pos : ℕ → ℤ
  negsuc : ℕ → ℤ

-- a - b, as an integer.
abbrev pub sub_ℕ : ℕ → ℕ → ℤ
sub_ℕ a b = if leb b a then pos (a - b) else negsuc (b - a - 1)

-- The order of an integer and a natural number, as tests.
abbrev pub is_lt_ℕ : ℤ → ℕ → Bool
is_lt_ℕ (pos n) m = ltb n m
is_lt_ℕ (negsuc n) m = true

abbrev pub is_gt_ℕ : ℤ → ℕ → Bool
is_gt_ℕ (pos n) m = ltb m n
is_gt_ℕ (negsuc n) m = false

-- The absolute value.
abbrev pub magnitude : ℤ → ℕ
magnitude (pos n) = n
magnitude (negsuc n) = suc n

-- The conversion to an unsigned integer of `w` bits, and of a natural number to a signed one of 64.
abbrev pub to_uint : ℕ → ℤ → ℕ
to_uint w (pos n) = n % 2 ^ w
to_uint w (negsuc n) = 2 ^ w - 1 - n % 2 ^ w

abbrev pub to_int64 : ℕ → ℤ
to_int64 n = let m = n % 2 ^ 64 in if ltb m (2 ^ 63) then pos m else negsuc (2 ^ 64 - 1 - m)
