-- ===== src/Cache/Refinement.antt =====
-- The signature cache against a map from sessions to signatures that never forgets.
use sprinter_signing.Base.{
  ℕ, ◌+◌, ◌≤◌, ◌<◌, ◌≡◌, refl, ◌⊎◌, inl, inr, Option, none, some, List, [], ◌∷◌, ◌++◌, arith, sym,
  ap, ◌∙◌, ok, or_fail,
}
use sprinter_signing.Base.Text.{Text}
use sprinter_signing.Tss.Process.{failure}
use sprinter_signing.Tss.Message.{Json, SignatureMessage}
use sprinter_signing.Cache.Defs.{
  TtlCache, Laws, signature_ttl, SignatureCache, Event, asked, new_signature_cache, signature_of,
  step, watch, subscribe,
}
use sprinter_signing.Cache.Spec.{
  Signatures, no_signatures, replay, time_after, first_signature, history, time_after-history_le,
}
use sprinter_signing.Cache.Invariants.{found, IsKept, watch-kept}

module _ {S : Type 0} (ttl_cache : TtlCache Text S) (laws : Laws signature_ttl ttl_cache)
    (json : Json SignatureMessage) where
  -- The items are those of the specification, less the forgotten ones.
  abbrev Sound : ℕ → Signatures → S → Type 0
  Sound t m s = (i : Text) → (found ttl_cache json i s ≡ none) ⊎ (found ttl_cache json i s ≡ m i)

  Sound-IsKept : IsKept ttl_cache json Sound
  Sound-IsKept = record {
    set_kept = λ id v t m s h i. ground (arith, h i, laws.get_set i id v s);
    get_kept = λ id t m s h i. ground (arith, h i, laws.get_touched i id s);
    wait_kept = λ d t m s h i. ground (arith, h i, laws.get_waited i d s);
  }

  -- Before the time to live has passed, nothing is forgotten.
  abbrev Exact : ℕ → Signatures → S → Type 0
  Exact t m s =
      t < signature_ttl
      → (i : Text)
      → (found ttl_cache json i s ≡ m i)
        × ((found ttl_cache json i s ≡ none) ⊎ (signature_ttl ≤ ttl_cache.left i s + t))

  Exact-IsKept : IsKept ttl_cache json Exact
  Exact-IsKept = record {
    set_kept =
        λ id v t m s h b i. ground (arith, h b i, laws.get_set i id v s, laws.left_set i id v s);
    get_kept =
        λ id t m s h b i. ground (arith, h b i, laws.get_touched i id s, laws.left_touched i id s);
    wait_kept = λ d t m s h b i.
        wait_exact d t m s i b (h (omega arith) i) (laws.get_waited i d s) (laws.get_fresh i d s)
          (laws.left_waited i d s);
  }
    where
      wait_exact :
          (d t : ℕ) (m : Signatures) (s : S) (i : Text)
          → d + t < signature_ttl
          → (found ttl_cache json i s ≡ m i)
            × ((found ttl_cache json i s ≡ none) ⊎ (signature_ttl ≤ ttl_cache.left i s + t))
          → (found ttl_cache json i (ttl_cache.wait d s) ≡ none)
            ⊎ (found ttl_cache json i (ttl_cache.wait d s) ≡ found ttl_cache json i s)
          → (d < ttl_cache.left i s
              → found ttl_cache json i (ttl_cache.wait d s) ≡ found ttl_cache json i s)
          → ttl_cache.left i s ≤ ttl_cache.left i (ttl_cache.wait d s) + d
          → (found ttl_cache json i (ttl_cache.wait d s) ≡ m i)
            × ((found ttl_cache json i (ttl_cache.wait d s) ≡ none)
                ⊎ (signature_ttl ≤ ttl_cache.left i (ttl_cache.wait d s) + (d + t)))
      wait_exact d t m s i b (e, inl n) w f l = ground arith
      wait_exact d t m s i b (e, inr n) w f l = (f (omega arith) ∙ e, inr (omega arith))

  exact_at :
      (es : List Event) (id : Text)
      → time_after es 0 < signature_ttl
      → found ttl_cache json id
          (watch ttl_cache json es (new_signature_cache ttl_cache json)).sig_cache
        ≡ replay json es no_signatures id
  unfolding new_signature_cache
  exact_at es id b =
      (watch-kept ttl_cache json Exact-IsKept es 0 no_signatures
        (new_signature_cache ttl_cache json) refl
        (λ b' i. (laws.get_empty i, inl (laws.get_empty i))) b id).0

  -- After any events, a signature that the cache returns for a session is the last one that came for
  -- it, from this relayer's signings or in a readable message, while the cache was watched; and while
  -- no more time than its time to live has passed in all, the cache returns the last one or, if none
  -- came, an error.
  pub signature_of-Refines :
      (es : List Event) (id v : Text)
      → let r =
          (signature_of ttl_cache json id
            (watch ttl_cache json es (new_signature_cache ttl_cache json))).0 in
        (r ≡ ok v → replay json es no_signatures id ≡ some v)
        × (time_after es 0 < signature_ttl
            → r ≡ or_fail (replay json es no_signatures id) (failure 0))
  unfolding signature_of new_signature_cache
  signature_of-Refines es id v = (
    λ e. ground (
      arith,
      e,
      watch-kept ttl_cache json Sound-IsKept es 0 no_signatures c refl (λ i. inl (laws.get_empty i))
          id,
    ),
    λ b. ground (arith, exact_at es id b),
  )
    where
      c : SignatureCache S
      c = new_signature_cache ttl_cache json

  watch-append :
      (es fs : List Event) (c : SignatureCache S)
      → watch ttl_cache json (es ++ fs) c ≡ watch ttl_cache json fs (watch ttl_cache json es c)
  unfolding watch
  watch-append [] fs c = refl
  watch-append (e ∷ es) fs c = watch-append es fs (step ttl_cache json e c)

  -- While no more time passes than the time to live, `Subscribe` sends the first signature that any of
  -- its readings can see, whether it came before the call or between two ticks: the last that came for
  -- the session until then. It sends none exactly if none came until its last reading.
  pub subscribe_lem :
      (id : Text) (done : List Event) (ticks : List (List Event))
      → time_after (history id done ticks) 0 < signature_ttl
      → subscribe ttl_cache json id ticks
          (watch ttl_cache json done (new_signature_cache ttl_cache json))
        ≡ first_signature json id done ticks
  unfolding subscribe watch step
  subscribe_lem id done [] b = exact_at done id b
  subscribe_lem id done (es ∷ ticks) b =
      let c = watch ttl_cache json done (new_signature_cache ttl_cache json) in
      let e = exact_at done id (bounded (time_after-history_le id done (es ∷ ticks))) in
      let later = subscribe_lem id (done ++ asked id ∷ es) ticks b in
      subscribed (found ttl_cache json id c.sig_cache) _ _
        (first_signature json id (done ++ asked id ∷ es) ticks) e
        (ap (subscribe ttl_cache json id ticks)
            (sym (watch-append done (asked id ∷ es) (new_signature_cache ttl_cache json)))
          ∙ later)
    where
      bounded :
          time_after done 0 ≤ time_after (history id done (es ∷ ticks)) 0
          → time_after done 0 < signature_ttl
      bounded h = omega (arith)

      subscribed :
          (r m later later' : Option Text)
          → r ≡ m
          → later ≡ later'
          → elim r [ some s ↦ some s | none ↦ later ] ≡ elim m [ some s ↦ some s | none ↦ later' ]
      subscribed r m later later' e f = cc
