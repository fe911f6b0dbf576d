-- ===== src/Base/Sort.antt =====
-- Sorting by a rank, highest first: what the program asks of Go's `sort.Sort` with a `Less` that is
-- `rank i > rank j`. Insertion sort stands for the library's algorithm, whose order of equal ranks is
-- not specified; where no two ranks agree there is one sorted order only.
use Prim.Native.Nat.{ℕ, ◌≤◌}
use mathlib.Core.Path.{◌≡◌, refl, sym, ap, ◌∙◌}
use mathlib.Core.Bool.{Bool, true}
use mathlib.Core.Logic.{∥∥₁_elim, inl, inr}
use mathlib.Core.List.{
  List, [], ◌∷◌, map, Mem, Perm, Permᴰ, mem-cons, mem-cons_self, mem-cons_of_mem, not-mem-nil,
}
use mathlib.Core.Logic.Or
use mathlib.Core.List.Perm
use mathlib.Core.List.Permᴰ
use native.Mathlib.Omega.{arith}
use native.Mathlib.Bridge.{le_prop}
use native.Mathlib.Nat.{le_refl}
use sprinter_signing.Base.Tests.{leb, if◌then◌else◌, Bool-cases}
use sprinter_signing.Base.Lists.{All, contains, Distinct}

module _ {ℓ} {A : Type ℓ} (rank : A → ℕ) where
  unfoldable pub insert_by_rank : A → List A → List A
  insert_by_rank x [] = x ∷ []
  insert_by_rank x (y ∷ ys) = if leb (rank y) (rank x) then x ∷ y ∷ ys else y ∷ insert_by_rank x ys

  unfoldable pub sort_by_rank : List A → List A
  unfolding insert_by_rank
  sort_by_rank [] = []
  sort_by_rank (x ∷ xs) = insert_by_rank x (sort_by_rank xs)

  -- Every member ranks at least as high as those after it.
  abbrev pub Descending : List A → Type 0
  Descending [] = Unit {0}
  Descending (x ∷ xs) = All (λ y. rank y ≤ rank x) xs × Descending xs

  insert_by_rank-All :
      (n : ℕ) (x : A) (ys : List A)
      → rank x ≤ n
      → All (λ y. rank y ≤ n) ys
      → All (λ y. rank y ≤ n) (insert_by_rank x ys)
  unfolding insert_by_rank
  insert_by_rank-All n x [] h a = (h, tt)
  insert_by_rank-All n x (y ∷ ys) h a = ground (arith, insert_by_rank-All n x ys h a.1)

  All-weaken : (m n : ℕ) (ys : List A) → m ≤ n → All (λ y. rank y ≤ m) ys → All (λ y. rank y ≤ n) ys
  All-weaken m n [] h a = tt
  All-weaken m n (y ∷ ys) h a = (omega arith, All-weaken m n ys h a.1)

  insert_by_rank-Descending :
      (x : A) (ys : List A) → Descending ys → Descending (insert_by_rank x ys)
  unfolding insert_by_rank
  insert_by_rank-Descending x [] d = (tt, tt)
  insert_by_rank-Descending x (y ∷ ys) d = ground (
    arith,
    insert_by_rank-Descending x ys d.1,
    insert_by_rank-All (rank y) x ys,
    All-weaken (rank y) (rank x) ys,
  )

  pub sort_by_rank-Descending : (xs : List A) → Descending (sort_by_rank xs)
  unfolding sort_by_rank
  sort_by_rank-Descending [] = tt
  sort_by_rank-Descending (x ∷ xs) =
      insert_by_rank-Descending x (sort_by_rank xs) (sort_by_rank-Descending xs)

  insert_by_rank-perm : (x : A) (ys : List A) → Perm (insert_by_rank x ys) (x ∷ ys)
  unfolding insert_by_rank
  insert_by_rank-perm x [] = Perm.refl (x ∷ [])
  insert_by_rank-perm x (y ∷ ys) = elim (Bool-cases (leb (rank y) (rank x))) [
    | inl e ↦ rw e (Perm.refl (x ∷ y ∷ ys))
    | inr e ↦ rw e (Perm.trans (Perm.cons y (insert_by_rank-perm x ys)) (Perm.swap x y ys))
  ]

  -- Sorting neither loses nor makes up a member.
  pub sort_by_rank-perm : (xs : List A) → Perm (sort_by_rank xs) xs
  unfolding sort_by_rank
  sort_by_rank-perm [] = Perm.refl []
  sort_by_rank-perm (x ∷ xs) =
      Perm.trans (insert_by_rank-perm x (sort_by_rank xs)) (Perm.cons x (sort_by_rank-perm xs))

  sort_by_rank-id : (xs : List A) → Descending xs → sort_by_rank xs ≡ xs
  unfolding sort_by_rank
  sort_by_rank-id [] d = refl
  sort_by_rank-id (x ∷ xs) d = rw (sort_by_rank-id xs d.1) (first xs d.0)
    where
      first : (ys : List A) → All (λ y. rank y ≤ rank x) ys → insert_by_rank x ys ≡ x ∷ ys
      first [] a = refl
      first (y ∷ ys) a = ground arith

-- `ground` splits on the ranks below, which it does at `Type 0`.
module _ {A : Type 0} (rank : A → ℕ) where
  All-of_mem {κ} : {P : A → Type κ} (xs : List A) → ((a : A) → Mem a xs → P a) → All P xs
  All-of_mem [] h = tt
  All-of_mem (x ∷ xs) h = (h x mem-cons_self, All-of_mem xs (λ a m. h a (mem-cons_of_mem x m)))

  le_of_mem : {a : A} (n : ℕ) (xs : List A) → All (λ y. rank y ≤ n) xs → Mem a xs → rank a ≤ n
  le_of_mem n [] h m = absurd (not-mem-nil m)
  le_of_mem n (x ∷ xs) h m = Or.elim le_prop (mem-cons.0 m) (λ e. rw e h.0) (le_of_mem n xs h.1)

  -- The first of a sorted rearrangement ranks highest.
  pub first_highest :
      (m : A) (ms xs : List A)
      → Perm (m ∷ ms) xs
      → Descending rank (m ∷ ms)
      → All (λ y. rank y ≤ rank m) xs
  first_highest m ms xs p d =
      All-of_mem xs
        (λ a h. le_of_mem (rank m) (m ∷ ms) (le_refl (rank m), d.0) ((Perm.mem_iff p).1 h))

  -- No two different members have one rank.
  abbrev pub NoCollision : List A → Type 0
  NoCollision xs = (a b : A) → Mem a xs → Mem b xs → rank a ≡ rank b → a ≡ b

  insert_by_rank_comm :
      (x y : A) (zs : List A)
      → (rank x ≡ rank y → x ≡ y)
      → insert_by_rank rank x (insert_by_rank rank y zs)
        ≡ insert_by_rank rank y (insert_by_rank rank x zs)
  unfolding insert_by_rank
  insert_by_rank_comm x y [] h = ground arith
  insert_by_rank_comm x y (z ∷ zs) h = ground (arith, insert_by_rank_comm x y zs h)

  sort_by_rank-Permᴰ :
      {xs ys : List A} → Permᴰ xs ys → NoCollision xs → sort_by_rank rank xs ≡ sort_by_rank rank ys
  unfolding sort_by_rank
  sort_by_rank-Permᴰ Permᴰ.nil h = refl
  sort_by_rank-Permᴰ (Permᴰ.cons {a = a} {b = b} e p) h =
      rw (e, sort_by_rank-Permᴰ p (λ c d m n. h c d (mem-cons_of_mem a m) (mem-cons_of_mem a n)))
  sort_by_rank-Permᴰ (Permᴰ.swap {a = a} {b = b} {l = l} e f) h =
      rw (← e, ← f)
        (insert_by_rank_comm a b (sort_by_rank rank l)
          (h a b mem-cons_self (mem-cons_of_mem a mem-cons_self)))
  sort_by_rank-Permᴰ (Permᴰ.trans p q) h =
      sort_by_rank-Permᴰ p h
      ∙ sort_by_rank-Permᴰ q
          (λ c d m n. h c d (Permᴰ.mem (Permᴰ.symm p) m) (Permᴰ.mem (Permᴰ.symm p) n))

  -- Where no two ranks agree, the sorted list depends on the members only, not on their order.
  pub sort_by_rank-perm_eq :
      IsSet (List A)
      → {xs ys : List A} → Perm xs ys
      → NoCollision xs
      → sort_by_rank rank xs ≡ sort_by_rank rank ys
  sort_by_rank-perm_eq s {xs} {ys} p h = ∥∥₁_elim p (s _ _) (λ q. sort_by_rank-Permᴰ q h)

  -- So any other sorting algorithm gives the same list.
  pub sorted_unique :
      IsSet (List A)
      → {xs ys : List A} → Perm xs ys
      → NoCollision xs
      → Descending rank ys
      → ys ≡ sort_by_rank rank xs
  sorted_unique s {xs} {ys} p h d = sym (sort_by_rank-perm_eq s p h ∙ sort_by_rank-id rank ys d)

  Bool_set : IsSet Bool
  Bool_set = hlevel

  pub Mem-contains :
      IsSet A → {a : A} (xs : List A) → Mem a xs → contains (map rank xs) (rank a) ≡ true
  Mem-contains s [] m = absurd (not-mem-nil m)
  Mem-contains s {a} (x ∷ xs) m =
      Or.elim (Bool_set _ _) (mem-cons.0 m) (λ e. rw e (ground arith))
        (λ n. ground (arith, Mem-contains s {a = a} xs n))

  -- The test that the ranks of a list are distinct rules collisions out.
  pub Distinct-NoCollision : IsSet A → (xs : List A) → Distinct (map rank xs) → NoCollision xs
  Distinct-NoCollision s [] d a b m n e = absurd (not-mem-nil m)
  Distinct-NoCollision s (x ∷ xs) d a b m n e =
      Or.elim (s a b) (mem-cons.0 m)
        (λ p. Or.elim (s a b) (mem-cons.0 n) (λ q. p ∙ sym q) (λ k. absurd (clash a b p k e)))
        (λ k.
          Or.elim (s a b) (mem-cons.0 n) (λ q. absurd (clash b a q k (sym e)))
            (λ l. Distinct-NoCollision s xs d.1 a b k l e))
    where
      clash : (c g : A) → c ≡ x → Mem g xs → rank c ≡ rank g → ⊥
      clash c g p k f =
          let t = Mem-contains s {a = g} xs k in let u = d.0 in cc (t, u, ap rank p, f)
