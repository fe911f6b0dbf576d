-- ===== src/Base/Perms.antt =====
-- What a rearrangement of a list of numbers keeps: its members, its length, that they are distinct.
use mathlib.Core.Logic.{∥∥₁_elim}
use mathlib.Core.List.{Perm, Permᴰ}
use native.Mathlib.Nat.{ℕ_set}
use native.Mathlib.Omega.{arith}
use Prim.Native.Nat.{ℕ, suc}
use mathlib.Core.Path.{◌≡◌, refl, ap, ◌∙◌}
use mathlib.Core.Bool.{Bool}
use mathlib.Core.List.{List, [], ◌∷◌}
use sprinter_signing.Base.Lists.{length, contains, Distinct}

bool_set : IsSet Bool
bool_set = hlevel

contains-Permᴰ : (a : ℕ) {xs ys : List ℕ} → Permᴰ xs ys → contains xs a ≡ contains ys a
contains-Permᴰ a Permᴰ.nil = refl
contains-Permᴰ a (Permᴰ.cons {a = x} {b = y} e p) = ground (arith, contains-Permᴰ a p)
contains-Permᴰ a (Permᴰ.swap {a = x} {b = y} {a' = z} {b' = w} e f) = ground arith
contains-Permᴰ a (Permᴰ.trans p q) = contains-Permᴰ a p ∙ contains-Permᴰ a q

pub contains-perm : (a : ℕ) {xs ys : List ℕ} → Perm xs ys → contains xs a ≡ contains ys a
contains-perm a {xs} {ys} p =
    ∥∥₁_elim p (bool_set (contains xs a) (contains ys a)) (λ q. contains-Permᴰ a q)

length-Permᴰ {ℓ} : {A : Type ℓ} {xs ys : List A} → Permᴰ xs ys → length xs ≡ length ys
length-Permᴰ Permᴰ.nil = refl
length-Permᴰ (Permᴰ.cons e p) = ap suc (length-Permᴰ p)
length-Permᴰ (Permᴰ.swap e f) = refl
length-Permᴰ (Permᴰ.trans p q) = length-Permᴰ p ∙ length-Permᴰ q

pub length-perm {ℓ} : {A : Type ℓ} {xs ys : List A} → Perm xs ys → length xs ≡ length ys
length-perm {A} {xs} {ys} p = ∥∥₁_elim p (ℕ_set (length xs) (length ys)) (λ q. length-Permᴰ q)

Distinct-prop : (xs : List ℕ) → IsProp (Distinct xs)
Distinct-prop [] = hlevel
Distinct-prop (x ∷ xs) = let h = Distinct-prop xs in hlevel

Distinct-Permᴰ : {xs ys : List ℕ} → Permᴰ xs ys → Distinct xs → Distinct ys
Distinct-Permᴰ Permᴰ.nil d = d
Distinct-Permᴰ (Permᴰ.cons {a = x} {b = y} e p) d =
    ground (arith, d, e, contains-Permᴰ x p, Distinct-Permᴰ p d.1)
Distinct-Permᴰ (Permᴰ.swap {a = x} {b = y} {a' = z} {b' = w} e f) d = ground (arith, d, e, f)
Distinct-Permᴰ (Permᴰ.trans p q) d = Distinct-Permᴰ q (Distinct-Permᴰ p d)

pub Distinct-perm : {xs ys : List ℕ} → Perm xs ys → Distinct xs → Distinct ys
Distinct-perm {xs} {ys} p d = ∥∥₁_elim p (Distinct-prop ys) (λ q. Distinct-Permᴰ q d)
