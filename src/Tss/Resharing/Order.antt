-- ===== src/Tss/Resharing/Order.antt =====
-- The order of the parties of a resharing: `sortParties` of tss/ecdsa/resharing/resharing.go.
use sprinter_signing.Base.{
  ℕ, suc, ◌+◌, ◌-◌, ◌≤◌, ◌<◌, ◌≡◌, refl, ap, ◌∙◌, false, not, Option, none, some, List, [], ◌∷◌,
  ◌++◌, map, arith, if◌then◌else◌, length, replicate, contains, Elem, Distinct, keep, All,
}
use sprinter_signing.Peers.{PeerId}
use sprinter_signing.Tss.Parties.{Party, ids}
use sprinter_signing.Tss.Resharing.Defs.{copy_onto, place_newcomers, sort_parties}
use sprinter_signing.Tss.Resharing.Newcomers.{
  numbered, newcomers, filled, zero_add, suc_add, place_newcomers-fits, place_newcomers-overflows,
}

copy_onto-nil : (slots : List (Option Party)) → copy_onto slots [] ≡ slots
unfolding copy_onto
copy_onto-nil [] = refl
copy_onto-nil (s ∷ slots) = refl

-- The old parties onto the front of a slice that is as long or longer.
copy_onto-filled :
    (old : List Party) (k : ℕ) → copy_onto (replicate (length old + k) none) old ≡ filled old k
unfolding copy_onto
copy_onto-filled [] k =
    copy_onto-nil (replicate (0 + k) none) ∙ ap (λ n. replicate n none) (zero_add k)
copy_onto-filled (p ∷ old) k =
    ap (λ n. copy_onto (replicate n none) (p ∷ old)) (suc_add (length old) k)
    ∙ ap (λ slots. some p ∷ slots) (copy_onto-filled old k)

newcomers-cons :
    (y : PeerId) (ys xs : List PeerId)
    → Distinct xs
    → contains ys y ≡ false
    → length (keep (λ p. not (contains (y ∷ ys) p)) xs) + (if contains xs y then 1 else 0)
      ≡ length (keep (λ p. not (contains ys p)) xs)
newcomers-cons y ys [] d h = refl
newcomers-cons y ys (x ∷ xs) d h = ground (arith, newcomers-cons y ys xs d.1 h)

length-keep-all : (xs : List PeerId) → length (keep (λ p. not (contains [] p)) xs) ≡ length xs
length-keep-all [] = refl
length-keep-all (x ∷ xs) = ap suc (length-keep-all xs)

-- Distinct members are as many as the ones that another list has no newcomers for.
length-newcomers :
    (ys xs : List PeerId)
    → Distinct ys
    → Distinct xs
    → All (λ y. Elem y xs) ys
    → length ys + length (keep (λ p. not (contains ys p)) xs) ≡ length xs
length-newcomers [] xs dy dx h = omega (arith, length-keep-all xs)
length-newcomers (y ∷ ys) xs dy dx h =
    ground (arith, length-newcomers ys xs dy.1 dx h.1, newcomers-cons y ys xs dx dy.0)

length-ids : (ps : List Party) → length (ids ps) ≡ length ps
length-ids [] = refl
length-ids (p ∷ ps) = ap suc (length-ids ps)

-- Where every old party has a place among the parties, each of them once, no place is left empty and
-- none is missing: the result is the old parties, followed by the others in their order, with their
-- places as their numbers.
pub sort_parties_lem :
    (parties old : List Party)
    → Distinct (ids old)
    → Distinct (ids parties)
    → All (λ p. Elem p (ids parties)) (ids old)
    → sort_parties parties old
      ≡ some (map (λ p. some p) (old ++ numbered (length old) (newcomers (ids old) parties)))
unfolding sort_parties
sort_parties_lem parties old d_old d_parties h =
    let n = newcomers (ids old) parties in
    ap (λ k. place_newcomers (ids old) parties (length old) (copy_onto (replicate k none) old))
      (omega (
        arith,
        length-newcomers (ids old) (ids parties) d_old d_parties h,
        length-ids old,
        length-ids parties,
      ))
    ∙ ap (place_newcomers (ids old) parties (length old)) (copy_onto-filled old (length n + 0))
    ∙ place_newcomers-fits (ids old) parties old 0
    ∙ ap (λ l. some l) (append_none (map (λ p. some p) (old ++ numbered (length old) n)))
  where
    append_none : (slots : List (Option Party)) → slots ++ [] ≡ slots
    append_none [] = refl
    append_none (s ∷ slots) = ap (λ l. s ∷ l) (append_none slots)

-- Where the old parties that the parties lack leave too few places for the others, a write is outside of
-- the slice: the loop panics.
pub sort_parties-panics :
    (parties old : List Party)
    → length old ≤ length parties
    → length parties < length old + length (newcomers (ids old) parties)
    → sort_parties parties old ≡ none
unfolding sort_parties
sort_parties-panics parties old h lt =
    ap (λ k. place_newcomers (ids old) parties (length old) (copy_onto (replicate k none) old))
      (omega (arith, h))
    ∙ ap (place_newcomers (ids old) parties (length old))
        (copy_onto-filled old (length parties - length old))
    ∙ place_newcomers-overflows (ids old) parties old (length parties - length old)
        (omega (arith, h, lt))
