-- ===== src/Chains/Amounts.antt =====
-- chains/util.go.
use native.Mathlib.Nat.{
  one-le-pow, div-add-mod', mod-le, mod-lt, mul-mod_left, le-div_iff_mul-le, pow-suc, pow-zero,
  mul-one, mul_assoc, mul_comm, le_of_mul-le-mul_left, mul-le-mul_left,
}
use sprinter_signing.Base.{
  ltb→lt, ltb→ge, ==_iff, ==_refl, subst, refl, zero, ◌↔◌, Bool-cases, inl, inr, ◌⊎◌, ap, ◌∙◌, sym,
  ℕ, suc, ◌+◌, ◌-◌, ◌*◌, ◌/◌, ◌%◌, ◌^◌, ◌≤◌, ◌<◌, ◌≡◌, true, false, ltb, ◌==◌, if◌then◌else◌,
  Option, none, some, arith,
}

-- `ScaleTokenAmount`, for amounts that are not negative.
unfoldable pub scale_token_amount : ℕ → ℕ → ℕ → ℕ
scale_token_amount amount src dst =
    if src == dst
    then amount
    else if ltb dst src
    then amount / 10 ^ (src - dst)
    else amount * 10 ^ (dst - src)

-- `CalculateStartingBlock`: a nil block is an error, and so the result of none. `Mod` by 0 panics.
unfoldable pub calculate_starting_block : Option ℕ → Option ℕ → Option ℕ
calculate_starting_block (some start) (some (suc confirmations)) =
    some (start - start % suc confirmations)
calculate_starting_block _ _ = none

pow_add : (n k : ℕ) → 10 ^ (n + k) ≡ 10 ^ n * 10 ^ k
pow_add n zero =
    ap (λ x. 10 ^ x) {x = n + 0} {y = n} (omega arith)
    ∙ sym (mul-one (10 ^ n))
    ∙ ap (λ x. 10 ^ n * x) (sym (pow-zero 10))
pow_add n (suc k) =
    ap (λ x. 10 ^ x) {x = n + suc k} {y = suc (n + k)} (omega arith)
    ∙ pow-suc 10 (n + k)
    ∙ ap (λ x. x * 10) (pow_add n k)
    ∙ mul_assoc (10 ^ n) (10 ^ k) 10
    ∙ ap (λ x. 10 ^ n * x) (sym (pow-suc 10 k))

pow-split : (m n k : ℕ) → m * 10 ^ n * 10 ^ k ≡ m * 10 ^ (n + k)
pow-split m n k = mul_assoc m (10 ^ n) (10 ^ k) ∙ ap (λ x. m * x) (sym (pow_add n k))

le_mul_iff : (m n k : ℕ) → (m ≤ n) ↔ (m * 10 ^ k ≤ n * 10 ^ k)
le_mul_iff m n k = (
  λ h. omega (arith, mul-le-mul_left (10 ^ k) h, mul_comm m (10 ^ k), mul_comm n (10 ^ k)),
  λ h.
      le_of_mul-le-mul_left {k = 10 ^ k}
        (omega (arith, h, mul_comm m (10 ^ k), mul_comm n (10 ^ k)))
        (one-le-pow k 10 (omega arith)),
)

scaled_down_iff :
    (amount borrow e dst : ℕ)
    → (borrow ≤ amount / 10 ^ e) ↔ (borrow * 10 ^ (e + dst) ≤ amount * 10 ^ dst)
scaled_down_iff amount borrow e dst =
    let (f, g) =
      le-div_iff_mul-le {k = 10 ^ e} {x = borrow} {y = amount} (one-le-pow e 10 (omega arith)) in
    let (f', g') = le_mul_iff (borrow * 10 ^ e) amount dst in
    (
      λ h. subst (λ x. x ≤ amount * 10 ^ dst) (pow-split borrow e dst) (f' (f h)),
      λ h. g (g' (subst (λ x. x ≤ amount * 10 ^ dst) (sym (pow-split borrow e dst)) h)),
    )

scaled_up_iff :
    (amount borrow e src : ℕ)
    → (borrow ≤ amount * 10 ^ e) ↔ (borrow * 10 ^ src ≤ amount * 10 ^ (e + src))
scaled_up_iff amount borrow e src =
    let (f, g) = le_mul_iff borrow (amount * 10 ^ e) src in
    (
      λ h. subst (λ x. borrow * 10 ^ src ≤ x) (pow-split amount e src) (f h),
      λ h. g (subst (λ x. borrow * 10 ^ src ≤ x) (sym (pow-split amount e src)) h),
    )

-- An amount is within a scaled one exactly if it is worth no more: compared at the precision of both
-- tokens, with nothing lost to rounding.
pub scale_token_amount_iff :
    (amount src dst borrow : ℕ)
    → (borrow ≤ scale_token_amount amount src dst) ↔ (borrow * 10 ^ src ≤ amount * 10 ^ dst)
unfolding scale_token_amount
scale_token_amount_iff amount src dst borrow =
    step (Bool-cases (src == dst)) (Bool-cases (ltb dst src))
  where
    step :
        (src == dst ≡ true) ⊎ (src == dst ≡ false)
        → (ltb dst src ≡ true) ⊎ (ltb dst src ≡ false)
        → (borrow ≤ scale_token_amount amount src dst) ↔ (borrow * 10 ^ src ≤ amount * 10 ^ dst)
    step (inl e) _ =
        subst
          (λ d. (borrow ≤ scale_token_amount amount src d) ↔ (borrow * 10 ^ src ≤ amount * 10 ^ d))
          ((==_iff src dst).0 e)
          (subst (λ x. (borrow ≤ x) ↔ (borrow * 10 ^ src ≤ amount * 10 ^ src))
            (ground (arith, ==_refl src)) (le_mul_iff borrow amount src))
    step (inr e) (inl l) =
        subst (λ x. (borrow ≤ x) ↔ (borrow * 10 ^ src ≤ amount * 10 ^ dst)) (ground (arith, e, l))
          (subst (λ n. (borrow ≤ amount / 10 ^ (src - dst)) ↔ (borrow * 10 ^ n ≤ amount * 10 ^ dst))
            {x = src - dst + dst} (omega (arith, ltb→lt dst src l))
            (scaled_down_iff amount borrow (src - dst) dst))
    step (inr e) (inr l) =
        subst (λ x. (borrow ≤ x) ↔ (borrow * 10 ^ src ≤ amount * 10 ^ dst)) (ground (arith, e, l))
          (subst (λ n. (borrow ≤ amount * 10 ^ (dst - src)) ↔ (borrow * 10 ^ src ≤ amount * 10 ^ n))
            {x = dst - src + src} (omega (arith, ltb→ge dst src l))
            (scaled_up_iff amount borrow (dst - src) src))

sub-mod : (a b q m : ℕ) → q * m + b ≡ a → (a - b) % m ≡ 0
sub-mod a b q m h = ap (λ x. x % m) {x = a - b} {y = q * m} (omega (arith, h)) ∙ mul-mod_left q m

-- The starting block is the last multiple of the confirmations that is not above the block.
pub calculate_starting_block_lem :
    (start confirmations : ℕ)
    → 0 < confirmations
    → (b : ℕ) × (calculate_starting_block (some start) (some confirmations) ≡ some b)
      × (b % confirmations ≡ 0)
      × (b ≤ start)
      × (start < b + confirmations)
unfolding calculate_starting_block
calculate_starting_block_lem start (suc c) h = (
  start - start % suc c,
  refl,
  sub-mod start (start % suc c) (start / suc c) (suc c) (div-add-mod' start (suc c)),
  omega (arith, mod-le start (suc c)),
  omega (arith, mod-lt start {m = suc c} (omega arith), mod-le start (suc c)),
)
calculate_starting_block_lem start zero h = absurd (omega (arith, h))
