-- ===== src/Cache/Invariants.antt =====
-- What a run of the signature cache keeps, against the map that never forgets.
use sprinter_signing.Base.{
  ℕ, ◌+◌, ◌≡◌, refl, true, false, Option, List, [], ◌∷◌, arith, sym, ap, ◌∙◌, subst, if◌then◌else◌,
  Result, ok, err,
}
use sprinter_signing.Base.Text.{Text}
use sprinter_signing.Tss.Process.{TssError}
use sprinter_signing.Tss.Message.{Json, SignatureMessage, unmarshal_signature_message}
use sprinter_signing.Cache.Defs.{
  TtlCache, SignatureCache, Event, signed, received, cancelled, asked, elapsed, put, put_message,
  signature_of, step, watch,
}
use sprinter_signing.Cache.Spec.{Signatures, with_signature, with_message, replay, time_after}

module _ {S : Type 0} (ttl_cache : TtlCache Text S) (json : Json SignatureMessage) where
  abbrev pub found : Text → S → Option Text
  found i s = (ttl_cache.get i s).0

  -- What holds of the time, the specification and the items is kept by a write, a read and a wait.
  pub record IsKept (I : ℕ → Signatures → S → Type 0) : Type 0 where
    pub set_kept :
        (id v : Text) (t : ℕ) (m : Signatures) (s : S)
        → I t m s
        → I t (with_signature id v m) (ttl_cache.set id v s)
    pub get_kept :
        (id : Text) (t : ℕ) (m : Signatures) (s : S) → I t m s → I t m (ttl_cache.get id s).1
    pub wait_kept : (d t : ℕ) (m : Signatures) (s : S) → I t m s → I (d + t) m (ttl_cache.wait d s)

  module _ {I : ℕ → Signatures → S → Type 0} (kept : IsKept I) where
    abbrev Inv : ℕ → Signatures → SignatureCache S → Type 0
    Inv t m c = I t m c.sig_cache

    put_message-kept :
        (r : Result TssError SignatureMessage) (t : ℕ) (m : Signatures) (c : SignatureCache S)
        → Inv t m c
        → Inv t (with_message r m) (put_message ttl_cache json r c)
    put_message-kept (err e) t m c h = h
    put_message-kept (ok msg) t m c h = kept.set_kept msg.id msg.signature t m c.sig_cache h

    put_message_watching :
        (r : Result TssError SignatureMessage) (c : SignatureCache S)
        → (put_message ttl_cache json r c).watching ≡ c.watching
    put_message_watching (err e) c = refl
    put_message_watching (ok msg) c = refl

    -- A turn of the loop that puts a signature, while the cache is watched and after that.
    step-received :
        (p : Text) (c : SignatureCache S)
        → step ttl_cache json (received p) c
          ≡ (if c.watching then put_message ttl_cache json (json.unmarshal p) c else c)
    unfolding step unmarshal_signature_message
    step-received p c = ground arith

    stopped-kept :
        (es : List Event) (t : ℕ) (m : Signatures) (c : SignatureCache S)
        → c.watching ≡ false
        → Inv t m c
        → Inv (time_after es t) m (watch ttl_cache json es c)
    unfolding watch step signature_of
    stopped-kept [] t m c w h = h
    stopped-kept (signed id s ∷ es) t m c w h =
        subst (λ d. Inv (time_after es t) m (watch ttl_cache json es d))
          (sym (ap (λ b. if b then put ttl_cache json id s c else c) w)) (stopped-kept es t m c w h)
    stopped-kept (received p ∷ es) t m c w h =
        subst (λ d. Inv (time_after es t) m (watch ttl_cache json es d))
          (sym (
            step-received p c
            ∙ ap (λ b. if b then put_message ttl_cache json (json.unmarshal p) c else c) w))
          (stopped-kept es t m c w h)
    stopped-kept (cancelled ∷ es) t m c w h = stopped-kept es t m _ refl h
    stopped-kept (asked id ∷ es) t m c w h =
        stopped-kept es t m _ w (kept.get_kept id t m c.sig_cache h)
    stopped-kept (elapsed d ∷ es) t m c w h =
        stopped-kept es (d + t) m _ w (kept.wait_kept d t m c.sig_cache h)

    pub watch-kept :
        (es : List Event) (t : ℕ) (m : Signatures) (c : SignatureCache S)
        → c.watching ≡ true
        → Inv t m c
        → Inv (time_after es t) (replay json es m) (watch ttl_cache json es c)
    unfolding watch step signature_of
    watch-kept [] t m c w h = h
    watch-kept (signed id s ∷ es) t m c w h =
        let m' = with_signature id s m in
        subst (λ d. Inv (time_after es t) (replay json es m') (watch ttl_cache json es d))
          (sym (ap (λ b. if b then put ttl_cache json id s c else c) w))
          (watch-kept es t m' _ w (kept.set_kept id s t m c.sig_cache h))
    watch-kept (received p ∷ es) t m c w h =
        let m' = with_message (json.unmarshal p) m in
        subst (λ d. Inv (time_after es t) (replay json es m') (watch ttl_cache json es d))
          (sym (
            step-received p c
            ∙ ap (λ b. if b then put_message ttl_cache json (json.unmarshal p) c else c) w))
          (watch-kept es t m' _ (put_message_watching (json.unmarshal p) c ∙ w)
            (put_message-kept (json.unmarshal p) t m c h))
    watch-kept (cancelled ∷ es) t m c w h = stopped-kept es t m _ refl h
    watch-kept (asked id ∷ es) t m c w h =
        watch-kept es t m _ w (kept.get_kept id t m c.sig_cache h)
    watch-kept (elapsed d ∷ es) t m c w h =
        watch-kept es (d + t) m _ w (kept.wait_kept d t m c.sig_cache h)
