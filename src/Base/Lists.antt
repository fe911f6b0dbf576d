-- ===== src/Base/Lists.antt =====
-- Lists measured by native numbers, membership as a Boolean test and as a proposition.
use Prim.Native.Nat.{ℕ, zero, suc, ◌+◌, ◌≤◌, min}
use mathlib.Core.Path.{◌≡◌, refl, ap}
use mathlib.Core.Bool.{Bool, true, false, ◌||◌}
use mathlib.Core.List.{List, [], ◌∷◌, ◌++◌}
use mathlib.Core.Option.{Option, none, some}
use native.Mathlib.Omega.{arith}
use mathlib.Core.Path.{subst}
use mathlib.Core.Logic.{◌⊎◌, inl, inr}
use sprinter_signing.Base.Tests.{◌==◌, ==_iff, Bool-cases, if◌then◌else◌}

module _ {ℓ} {A : Type ℓ} where
  abbrev pub length : List A → ℕ
  length [] = 0
  length (x ∷ xs) = suc (length xs)

  abbrev pub take : ℕ → List A → List A
  take zero xs = []
  take (suc n) [] = []
  take (suc n) (x ∷ xs) = x ∷ take n xs

  abbrev pub get_elem? : List A → ℕ → Option A
  get_elem? [] i = none
  get_elem? (x ∷ xs) zero = some x
  get_elem? (x ∷ xs) (suc i) = get_elem? xs i

  abbrev pub replicate : ℕ → A → List A
  replicate zero a = []
  replicate (suc n) a = a ∷ replicate n a

  pub length-append : (xs ys : List A) → length (xs ++ ys) ≡ length xs + length ys
  length-append [] ys = omega arith
  length-append (x ∷ xs) ys = omega (arith, length-append xs ys)

  pub length-take : (n : ℕ) (xs : List A) → length (take n xs) ≡ min n (length xs)
  length-take zero xs = omega arith
  length-take (suc n) [] = omega arith
  length-take (suc n) (x ∷ xs) = omega (arith, length-take n xs)

  pub length-replicate : (n : ℕ) (a : A) → length (replicate n a) ≡ n
  length-replicate zero a = refl
  length-replicate (suc n) a = ap suc (length-replicate n a)

-- A predicate of every member, by recursion: it computes to tuples.
abbrev pub All {ℓ κ} : {A : Type ℓ} → (A → Type κ) → List A → Type κ
All P [] = Unit
All P (x ∷ xs) = P x × All P xs

-- Go's `slices.Contains`.
abbrev pub contains : List ℕ → ℕ → Bool
contains [] a = false
contains (x ∷ xs) a = x == a || contains xs a

-- Membership and distinctness, as types that the tactics read.
abbrev pub Elem : ℕ → List ℕ → Type 0
Elem a xs = contains xs a ≡ true

abbrev pub Distinct : List ℕ → Type 0
Distinct [] = Unit {0}
Distinct (x ∷ xs) = (contains xs x ≡ false) × Distinct xs

-- Go's `for range` with `continue` on a test: the members that pass it, in order.
abbrev pub keep : (ℕ → Bool) → List ℕ → List ℕ
keep p [] = []
keep p (x ∷ xs) = if p x then x ∷ keep p xs else keep p xs

pub contains-append :
    (xs ys : List ℕ) (a : ℕ) → contains (xs ++ ys) a ≡ (contains xs a || contains ys a)
contains-append [] ys a = refl
contains-append (x ∷ xs) ys a = ground (arith, contains-append xs ys a)

pub contains-keep :
    (p : ℕ → Bool) (xs : List ℕ) (a : ℕ)
    → contains (keep p xs) a ≡ (if p a then contains xs a else false)
contains-keep p [] a = ground arith
contains-keep p (x ∷ xs) a = ground (arith, contains-keep p xs a)

pub Distinct-snoc :
    (xs : List ℕ) (a : ℕ) → contains xs a ≡ false → Distinct xs → Distinct (xs ++ a ∷ [])
Distinct-snoc [] a h d = ground arith
Distinct-snoc (x ∷ xs) a h d = ground (arith, contains-append xs (a ∷ []) x, Distinct-snoc xs a)

pub Distinct-keep : (p : ℕ → Bool) (xs : List ℕ) → Distinct xs → Distinct (keep p xs)
Distinct-keep p [] d = tt
Distinct-keep p (x ∷ xs) d = ground (arith, Distinct-keep p xs d.1, contains-keep p xs x)

pub length-keep-le : (p : ℕ → Bool) (xs : List ℕ) → length (keep p xs) ≤ length xs
length-keep-le p [] = omega arith
length-keep-le p (x ∷ xs) = ground (arith, length-keep-le p xs)

pub All-append {ℓ κ} :
    {A : Type ℓ} (P : A → Type κ) (xs ys : List A) → All P xs → All P ys → All P (xs ++ ys)
All-append P [] ys hx hy = hy
All-append P (x ∷ xs) ys hx hy = (hx.0, All-append P xs ys hx.1 hy)

pub All-contains {κ} :
    (P : ℕ → Type κ) (xs : List ℕ) (a : ℕ) → All P xs → contains xs a ≡ true → P a
All-contains P [] a h c = absurd (ground (arith, c))
All-contains P (x ∷ xs) a h c = step (Bool-cases (x == a)) (λ c'. All-contains P xs a h.1 c')
  where
    step : (x == a ≡ true) ⊎ (x == a ≡ false) → (contains xs a ≡ true → P a) → P a
    step (inl e) rest = subst P ((==_iff x a).0 e) h.0
    step (inr e) rest = rest (ground (arith, c, e))
