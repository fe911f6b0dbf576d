-- ===== src/Chains/Required.antt =====
-- Which confirmations chains/evm/message/confirmations.go asks for, and when the wait for them succeeds.
use sprinter_signing.Base.{
  ◌↔◌, ◌⊎◌, ℕ, ◌+◌, ◌^◌, ◌≤◌, ◌<◌, ◌≡◌, refl, ap, ◌∙◌, true, Option, none, some, List, [], ◌∷◌,
  arith, ok, err, All, contains, All-contains, ==_refl, sym,
}
use sprinter_signing.Base.Dict.{lookup, nat_key}
use sprinter_signing.Base.Sort.{Descending, sort_by_rank-Descending, sort_by_rank-perm}
use sprinter_signing.Base.Perms.{contains-perm}
use sprinter_signing.Chains.Tokens.{Address}
use sprinter_signing.Chains.Confirmations.{
  Buckets, bounds, from_top, sort_uint64, first_above, bucket_of, minimal_confirmations,
  exceeds_buckets, Poll, no_receipt, no_block, seen, wait, Watcher, order_value,
  wait_for_token_confirmations,
}

-- A turn that shows a receipt at least `required` blocks below the latest one.
abbrev pub IsConfirmedIn : ℕ → List Poll → Type 0
IsConfirmedIn required [] = ⊥
IsConfirmedIn required (no_receipt ∷ polls) = IsConfirmedIn required polls
IsConfirmedIn required (no_block ∷ polls) = IsConfirmedIn required polls
IsConfirmedIn required (seen receipt latest ∷ polls) =
    (receipt + required ≤ latest) ⊎ IsConfirmedIn required polls

wait_iff :
    (required : ℕ) (polls : List Poll)
    → (wait required polls ≡ ok tt) ↔ IsConfirmedIn required polls
unfolding wait
wait_iff required [] = ground arith
wait_iff required (no_receipt ∷ polls) = wait_iff required polls
wait_iff required (no_block ∷ polls) = wait_iff required polls
wait_iff required (seen receipt latest ∷ polls) = ground (arith, wait_iff required polls)

first_above-above :
    (value b : ℕ) (bs : List ℕ)
    → first_above value bs ≡ some b
    → (contains bs b ≡ true) × (value < b)
unfolding first_above
first_above-above value b [] e = ground arith
first_above-above value b (x ∷ bs) e = ground (arith, e, first_above-above value b bs)

first_above-none :
    (value b : ℕ) (bs : List ℕ) → first_above value bs ≡ none → contains bs b ≡ true → b ≤ value
unfolding first_above
first_above-none value b [] e c = ground arith
first_above-none value b (x ∷ bs) e c = ground (arith, e, c, first_above-none value b bs)

first_above-least :
    (value b b' : ℕ) (bs : List ℕ)
    → Descending from_top bs
    → All (λ x. x < 2 ^ 64) bs
    → first_above value bs ≡ some b
    → contains bs b' ≡ true
    → value < b'
    → b ≤ b'
unfolding first_above
first_above-least value b b' [] d h e c lt = ground arith
first_above-least value b b' (x ∷ bs) d h e c lt = ground (
  arith,
  e,
  c,
  lt,
  first_above-least value b b' bs d.1 h.1,
  All-contains (λ y. from_top y ≤ from_top x) bs b' d.0,
  All-contains (λ y. y < 2 ^ 64) bs b' h.1,
)

Elem-All : (P : ℕ → Type 0) (xs : List ℕ) → ((a : ℕ) → contains xs a ≡ true → P a) → All P xs
Elem-All P [] h = tt
Elem-All P (x ∷ xs) h =
    (h x (ground (arith, ==_refl x)), Elem-All P xs (λ a c. h a (ground (arith, c))))

bucket_of-least :
    (buckets : Buckets) (value b : ℕ)
    → All (λ x. x < 2 ^ 64) (bounds buckets)
    → contains (bounds buckets) b ≡ true
    → value < b
    → ((b' : ℕ) → contains (bounds buckets) b' ≡ true → value < b' → b ≤ b')
    → bucket_of buckets value ≡ some b
unfolding bucket_of sort_uint64
bucket_of-least buckets value b h c lt least = step (first_above value sorted) refl
  where
    sorted : List ℕ
    sorted = sort_uint64 (bounds buckets)

    same : (x : ℕ) → contains sorted x ≡ contains (bounds buckets) x
    same x = contains-perm x (sort_by_rank-perm from_top (bounds buckets))

    step : (found : Option ℕ) → first_above value sorted ≡ found → first_above value sorted ≡ some b
    step none e = absurd (ground (arith, lt, first_above-none value b sorted e (same b ∙ c)))
    step (some x) e =
        let (is_in, above) = first_above-above value x sorted e in
        e
        ∙ ap (λ y. some y)
            (omega (
              arith,
              least x (sym (same x) ∙ is_in) above,
              first_above-least value x b sorted (sort_by_rank-Descending from_top (bounds buckets))
                  (Elem-All (λ y. y < 2 ^ 64) sorted
                    (λ a ca.
                      All-contains (λ y. y < 2 ^ 64) (bounds buckets) a h (sym (same a) ∙ ca)))
                  e (same b ∙ c) lt,
            ))

bucket_of-none :
    (buckets : Buckets) (value : ℕ)
    → ((b : ℕ) → contains (bounds buckets) b ≡ true → b ≤ value)
    → bucket_of buckets value ≡ none
unfolding bucket_of sort_uint64
bucket_of-none buckets value all = step (first_above value (sort_uint64 (bounds buckets))) refl
  where
    step :
        (found : Option ℕ)
        → first_above value (sort_uint64 (bounds buckets)) ≡ found
        → first_above value (sort_uint64 (bounds buckets)) ≡ none
    step none e = e
    step (some x) e =
        let (is_in, above) = first_above-above value x (sort_uint64 (bounds buckets)) e in
        absurd (
          omega (
            arith,
            above,
            all x (sym (contains-perm x (sort_by_rank-perm from_top (bounds buckets))) ∙ is_in),
          ))

-- An order needs the confirmations of the least bucket above its value, and is refused exactly if its
-- value reaches every bucket: the order in which the map is read does not matter.
pub minimal_confirmations_lem :
    (buckets : Buckets) (value b confirmations : ℕ)
    → All (λ x. x < 2 ^ 64) (bounds buckets)
    → (lookup b buckets ≡ some confirmations
        → contains (bounds buckets) b ≡ true
        → value < b
        → ((b' : ℕ) → contains (bounds buckets) b' ≡ true → value < b' → b ≤ b')
        → minimal_confirmations buckets value ≡ ok confirmations)
      × (((b' : ℕ) → contains (bounds buckets) b' ≡ true → b' ≤ value)
          → minimal_confirmations buckets value ≡ err exceeds_buckets)
unfolding minimal_confirmations
minimal_confirmations_lem buckets value b confirmations h = (
  λ l c lt least. ground (arith, l, bucket_of-least buckets value b h c lt least),
  λ all. ground (arith, bucket_of-none buckets value all),
)

-- A wait for a token's confirmations succeeds exactly if the token's value is known, it is below a bucket,
-- and a turn in time sees the receipt at least as deep as the value needs.
pub wait_for_token_confirmations_iff :
    (w : Watcher) (chain_id : ℕ) (token : Address) (amount value required : ℕ) (polls : List Poll)
    → order_value w chain_id token amount ≡ ok value
    → minimal_confirmations w.buckets value ≡ ok required
    → (wait_for_token_confirmations w chain_id token amount polls ≡ ok tt)
      ↔ IsConfirmedIn required polls
unfolding wait_for_token_confirmations
wait_for_token_confirmations_iff w chain_id token amount value required polls e f =
    ground (arith, e, f, wait_iff required polls)
