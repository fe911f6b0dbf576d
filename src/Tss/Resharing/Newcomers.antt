-- ===== src/Tss/Resharing/Newcomers.antt =====
-- The loop of `sortParties` of tss/ecdsa/resharing/resharing.go: where newcomers that fit are placed.
use sprinter_signing.Base.{
  Bool-cases, ◌⊎◌, inl, inr, ℕ, zero, suc, ◌+◌, ◌<◌, ◌≡◌, refl, ap, ◌∙◌, sym, true, false, not,
  Option, none, some, List, [], ◌∷◌, ◌++◌, map, arith, length, replicate, contains, keep,
  length-append,
}
use sprinter_signing.Peers.{PeerId, is_participant}
use sprinter_signing.Tss.Parties.{Party, ids}
use sprinter_signing.Tss.Resharing.Defs.{write_at, place_newcomers, and_then}

-- The parties of the ids, numbered from a place on.
abbrev pub numbered : ℕ → List PeerId → List Party
numbered i [] = []
numbered i (p ∷ ps) = record { id = p; index = i } ∷ numbered (suc i) ps

-- Those of the parties that are not among the old ones.
abbrev pub newcomers : List PeerId → List Party → List PeerId
newcomers old parties = keep (λ p. not (contains old p)) (ids parties)

abbrev pub filled : List Party → ℕ → List (Option Party)
filled ps k = map (λ p. some p) ps ++ replicate k none

write_at-filled :
    (ps : List Party) (k : ℕ) (p : Party)
    → write_at (filled ps (suc k)) (length ps) p ≡ some (filled (ps ++ p ∷ []) k)
unfolding write_at
write_at-filled [] k p = refl
write_at-filled (q ∷ ps) k p = rw (write_at-filled ps k p)

append_assoc : (xs ys zs : List Party) → xs ++ ys ++ zs ≡ xs ++ (ys ++ zs)
append_assoc [] ys zs = refl
append_assoc (x ∷ xs) ys zs = ap (λ l. x ∷ l) (append_assoc xs ys zs)

write_at-full : (ps : List Party) (p : Party) → write_at (filled ps 0) (length ps) p ≡ none
unfolding write_at
write_at-full [] p = refl
write_at-full (q ∷ ps) p = rw (write_at-full ps p)

-- One step of the loop for a newcomer, and for an old party.
place_newcomers-newcomer :
    (old : List PeerId) (p : Party) (parties : List Party) (i : ℕ) (slots : List (Option Party))
    → contains old p.id ≡ false
    → place_newcomers old (p ∷ parties) i slots
      ≡ and_then
          (write_at slots i (record { id = p.id; index = i }))
          (place_newcomers old parties (suc i))
unfolding place_newcomers is_participant
place_newcomers-newcomer old p parties i slots h = rw h

place_newcomers-old :
    (old : List PeerId) (p : Party) (parties : List Party) (i : ℕ) (slots : List (Option Party))
    → contains old p.id ≡ true
    → place_newcomers old (p ∷ parties) i slots ≡ place_newcomers old parties i slots
unfolding place_newcomers is_participant
place_newcomers-old old p parties i slots h = rw h

length-snoc : (ps : List Party) (p : Party) → suc (length ps) ≡ length (ps ++ p ∷ [])
length-snoc ps p = omega (arith, length-append ps (p ∷ []))

newcomers-old :
    (old : List PeerId) (p : Party) (parties : List Party)
    → contains old p.id ≡ true
    → newcomers old (p ∷ parties) ≡ newcomers old parties
newcomers-old old p parties h = rw h

newcomers-new :
    (old : List PeerId) (p : Party) (parties : List Party)
    → contains old p.id ≡ false
    → newcomers old (p ∷ parties) ≡ p.id ∷ newcomers old parties
newcomers-new old p parties h = rw h

pub zero_add : (n : ℕ) → 0 + n ≡ n
zero_add n = omega arith

pub suc_add : (m n : ℕ) → suc m + n ≡ suc (m + n)
suc_add m n = omega arith

append-nil : (xs : List Party) → xs ++ [] ≡ xs
append-nil [] = refl
append-nil (x ∷ xs) = ap (λ l. x ∷ l) (append-nil xs)

-- Newcomers that fit stand behind the parties that are there, with the numbers of their places.
pub place_newcomers-fits :
    (old : List PeerId) (parties ps : List Party) (extra : ℕ)
    → place_newcomers old parties (length ps) (filled ps (length (newcomers old parties) + extra))
      ≡ some (filled (ps ++ numbered (length ps) (newcomers old parties)) extra)
unfolding place_newcomers
place_newcomers-fits old [] ps extra =
    ap (λ k. some (filled ps k)) (zero_add extra)
    ∙ ap (λ l. some (filled l extra)) (sym (append-nil ps))
place_newcomers-fits old (p ∷ parties) ps extra =
    step (Bool-cases (contains old p.id)) (λ qs. place_newcomers-fits old parties qs extra)
  where
    step :
        (contains old p.id ≡ true) ⊎ (contains old p.id ≡ false)
        → ((qs : List Party)
            → place_newcomers old parties
                (length qs)
                (filled qs (length (newcomers old parties) + extra))
              ≡ some (filled (qs ++ numbered (length qs) (newcomers old parties)) extra))
        → place_newcomers old
            (p ∷ parties)
            (length ps)
            (filled ps (length (newcomers old (p ∷ parties)) + extra))
          ≡ some (filled (ps ++ numbered (length ps) (newcomers old (p ∷ parties))) extra)
    step (inl e) rest =
        place_newcomers-old old p parties (length ps) _ e
        ∙ ap (λ n. place_newcomers old parties (length ps) (filled ps (length n + extra)))
            (newcomers-old old p parties e)
        ∙ rest ps
        ∙ ap (λ n. some (filled (ps ++ numbered (length ps) n) extra))
            (sym (newcomers-old old p parties e))
    step (inr e) rest =
        let q : Party = record { id = p.id; index = length ps } in
        let n = newcomers old parties in
        place_newcomers-newcomer old p parties (length ps) _ e
        ∙ ap
            (λ m.
              and_then (write_at (filled ps (length m + extra)) (length ps) q)
                (place_newcomers old parties (suc (length ps))))
            (newcomers-new old p parties e)
        ∙ ap
            (λ k.
              and_then (write_at (filled ps k) (length ps) q)
                (place_newcomers old parties (suc (length ps))))
            (suc_add (length n) extra)
        ∙ ap (λ slots. and_then slots (place_newcomers old parties (suc (length ps))))
            (write_at-filled ps (length n + extra) q)
        ∙ ap (λ i. place_newcomers old parties i (filled (ps ++ q ∷ []) (length n + extra)))
            (length-snoc ps q)
        ∙ rest (ps ++ q ∷ [])
        ∙ ap (λ i. some (filled (ps ++ q ∷ [] ++ numbered i n) extra)) (sym (length-snoc ps q))
        ∙ ap (λ l. some (filled l extra)) (append_assoc ps (q ∷ []) (numbered (suc (length ps)) n))
        ∙ ap (λ m. some (filled (ps ++ numbered (length ps) m) extra))
            (sym (newcomers-new old p parties e))

-- More newcomers than free places.
pub place_newcomers-overflows :
    (old : List PeerId) (parties ps : List Party) (k : ℕ)
    → k < length (newcomers old parties)
    → place_newcomers old parties (length ps) (filled ps k) ≡ none
place_newcomers-overflows old [] ps k lt = absurd (omega (arith, lt))
place_newcomers-overflows old (p ∷ parties) ps k lt =
    step k (Bool-cases (contains old p.id)) lt (λ qs m. place_newcomers-overflows old parties qs m)
  where
    q : Party
    q = record { id = p.id; index = length ps }

    step :
        (k : ℕ)
        → (contains old p.id ≡ true) ⊎ (contains old p.id ≡ false)
        → k < length (newcomers old (p ∷ parties))
        → ((qs : List Party) (m : ℕ)
            → m < length (newcomers old parties)
            → place_newcomers old parties (length qs) (filled qs m) ≡ none)
        → place_newcomers old (p ∷ parties) (length ps) (filled ps k) ≡ none
    step k (inl e) lt rest =
        place_newcomers-old old p parties (length ps) _ e
        ∙ rest ps k (omega (arith, lt, ap length (newcomers-old old p parties e)))
    step zero (inr e) lt rest =
        place_newcomers-newcomer old p parties (length ps) _ e
        ∙ ap (λ slots. and_then slots (place_newcomers old parties (suc (length ps))))
            (write_at-full ps q)
    step (suc k) (inr e) lt rest =
        place_newcomers-newcomer old p parties (length ps) _ e
        ∙ ap (λ slots. and_then slots (place_newcomers old parties (suc (length ps))))
            (write_at-filled ps k q)
        ∙ ap (λ i. place_newcomers old parties i (filled (ps ++ q ∷ []) k)) (length-snoc ps q)
        ∙ rest (ps ++ q ∷ []) k (omega (arith, lt, ap length (newcomers-new old p parties e)))
