-- ===== src/Examples/Caches.antt =====
-- A cache of ages, and signatures of two sessions that come and are asked for.
use sprinter_signing.Base.{
  ℕ, ◌+◌, ◌-◌, ◌≤◌, ◌<◌, ◌≡◌, refl, ◌⊎◌, inl, Option, none, some, List, [], ◌∷◌, ◌++◌, arith, ltb,
  if◌then◌else◌, ok, err, or_fail,
}
use sprinter_signing.Base.Int.{ℤ, pos}
use sprinter_signing.Base.Text.{Text, text_eq, text_eq_iff, decimal}
use sprinter_signing.Tss.Process.{failure}
use sprinter_signing.Tss.Message.{Json, SignatureMessage}
use sprinter_signing.Cache.Defs.{
  TtlCache, Laws, signature_ttl, Event, signed, received, elapsed, new_signature_cache,
  signature_of, watch, subscribe,
}
use sprinter_signing.Cache.Refinement.{signature_of-Refines, subscribe_lem}
use sprinter_signing.Cache.Spec.{replay, no_signatures, time_after, first_signature}
use sprinter_signing.Chains.Handler.{session_of}
use sprinter_signing.Api.Status.{handle_request, handle_request_lem}

abbrev Ages : Type 0
Ages = Text → Option (Text × ℕ)

abbrev kept : Option (Text × ℕ) → Option Text
kept none = none
kept (some (v, left)) = if ltb 0 left then some v else none

abbrev touched : Option (Text × ℕ) → Option (Text × ℕ)
touched none = none
touched (some (v, left)) = if ltb 0 left then some (v, signature_ttl) else some (v, left)

abbrev aged : ℕ → Option (Text × ℕ) → Option (Text × ℕ)
aged t none = none
aged t (some (v, left)) = some (v, left - t)

abbrev left_of : Option (Text × ℕ) → ℕ
left_of none = 0
left_of (some (v, left)) = left

abbrev capped : Option (Text × ℕ) → ℕ
capped o = if ltb signature_ttl (left_of o) then signature_ttl else left_of o

abbrev aging : TtlCache Text Ages
aging = record {
  empty = λ i. none;
  set = λ j v s i. if text_eq j i then some (v, signature_ttl) else s i;
  get = λ i s. (kept (s i), λ k. if text_eq i k then touched (s i) else s k);
  wait = λ t s i. aged t (s i);
  left = λ i s. capped (s i);
}

kept-touched : (o : Option (Text × ℕ)) → kept (touched o) ≡ kept o
kept-touched none = refl
kept-touched (some (v, left)) = ground arith

capped-touched_le : (o : Option (Text × ℕ)) → capped o ≤ capped (touched o)
capped-touched_le none = omega arith
capped-touched_le (some (v, left)) = ground arith

kept-aged : (t : ℕ) (o : Option (Text × ℕ)) → (kept (aged t o) ≡ none) ⊎ (kept (aged t o) ≡ kept o)
kept-aged t none = inl refl
kept-aged t (some (v, left)) = ground arith

kept-aged_fresh : (t : ℕ) (o : Option (Text × ℕ)) → t < capped o → kept (aged t o) ≡ kept o
kept-aged_fresh t none h = refl
kept-aged_fresh t (some (v, left)) h = ground arith

capped-aged_le : (t : ℕ) (o : Option (Text × ℕ)) → capped o ≤ capped (aged t o) + t
capped-aged_le t none = omega arith
capped-aged_le t (some (v, left)) = ground arith

aging-Laws : Laws signature_ttl aging
aging-Laws = record {
  get_empty = λ i. refl;
  get_set = λ i j v s. ground (arith, text_eq_iff j i);
  get_touched = λ i j s. ground (arith, text_eq_iff j i, kept-touched (s i));
  get_waited = λ i t s. kept-aged t (s i);
  get_fresh = λ i t s h. kept-aged_fresh t (s i) h;
  left_set = λ i j v s. ground (arith, text_eq_iff j i);
  left_touched = λ i j s. ground (arith, text_eq_iff j i, capped-touched_le (s i));
  left_waited = λ i t s. capped-aged_le t (s i);
}

-- A message is its session, of one byte, and the signature.
abbrev json : Json SignatureMessage
json = record {
  marshal = λ m. ok (m.id ++ m.signature);
  unmarshal =
      λ t. elim t [ [] ↦ err (failure 0) | id ∷ s ↦ ok (record { id = id ∷ []; signature = s }) ];
}

abbrev deposit_session : Text
deposit_session = session_of 7 (51 ∷ [])

abbrev events : List Event
events = signed deposit_session (1 ∷ []) ∷ received [] ∷ elapsed 100 ∷ received (5 ∷ 2 ∷ []) ∷ []

abbrev later_events : List Event
later_events = elapsed 50 ∷ signed deposit_session (3 ∷ []) ∷ []

signature_of-Refines_example :
    let r =
      (signature_of aging json deposit_session
        (watch aging json events (new_signature_cache aging json))).0 in
    (r ≡ ok (1 ∷ []) → replay json events no_signatures deposit_session ≡ some (1 ∷ []))
    × (time_after events 0 < signature_ttl
        → r ≡ or_fail (replay json events no_signatures deposit_session) (failure 0))
signature_of-Refines_example =
    signature_of-Refines aging aging-Laws json events deposit_session (1 ∷ [])

subscribe_example :
    subscribe aging json deposit_session
      (later_events ∷ [])
      (watch aging json (elapsed 10 ∷ []) (new_signature_cache aging json))
    ≡ first_signature json deposit_session (elapsed 10 ∷ []) (later_events ∷ [])
subscribe_example =
    subscribe_lem aging aging-Laws json deposit_session (elapsed 10 ∷ []) (later_events ∷ [])
      (omega arith)

abbrev one_chain : Text → Option ℤ
one_chain t = some (pos 7)

handle_request_example :
    (handle_request aging json one_chain
        (λ s. s)
        (7 ∷ [])
        (55 ∷ [])
        (some (51 ∷ []))
        (later_events ∷ [])
        (watch aging json (elapsed 10 ∷ []) (new_signature_cache aging json))
      ≡ ok (some (3 ∷ [])))
    × ((m : ℕ) (d : Text) → session_of m d ≡ session_of 7 (51 ∷ []) → (m ≡ 7) × (d ≡ 51 ∷ []))
unfolding text_eq decimal
handle_request_example =
    handle_request_lem aging json aging-Laws one_chain (λ s. s) (7 ∷ []) (55 ∷ []) (51 ∷ []) 7
      (later_events ∷ []) (elapsed 10 ∷ []) refl (omega arith) refl (omega arith)
