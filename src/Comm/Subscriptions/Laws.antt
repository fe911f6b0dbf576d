-- ===== src/Comm/Subscriptions/Laws.antt =====
-- Who is subscribed after subscribing and unsubscribing.
use mathlib.Core.List.{List, Perm, perm_append_comm}
use mathlib.Core.List.Perm
use sprinter_signing.Base.{
  ℕ, ◌≡◌, refl, ap, ◌∙◌, true, false, none, some, [], ◌∷◌, ◌++◌, map, arith, if◌then◌else◌,
  contains, ◌&&◌, Bool-cases, ◌⊎◌, inl, inr, subst, sym,
}
use sprinter_signing.Base.Dict.{Dict, lookup, insert, erase, lookup-insert}
use sprinter_signing.Base.Text.{Text, text_key, text_eq, text_eq_iff, decimal}
use sprinter_signing.Comm.Messages.{MessageType, type_key, type_same_iff}
use sprinter_signing.Comm.SubscriptionId.{
  identifier-new, identifier-dashed, new_subscription_id, unwrap, subscription_identifier,
  unwrap-new_subscription_id, unwrap-dashed, dash,
}
use sprinter_signing.Comm.Subscriptions.Defs.{
  Channel, Subscribers, Range, or_empty, get_subscribers, type_subscribers, subscribe_to,
  unsubscribe_from, remove_subscriber, unsubscribe_parts,
}

-- Writing at one session and type changes what is found there only.
type_subscribers-insert :
    (ms : Subscribers) (sid sid' : Text) (t t' : MessageType) (m : Dict Text Channel)
    → type_subscribers (insert sid (insert t m (or_empty (lookup sid ms))) ms) sid' t'
      ≡ (if text_eq sid sid' && type_key.same t t' then some m else type_subscribers ms sid' t')
unfolding type_subscribers
type_subscribers-insert ms sid sid' t t' m = ground (
  arith,
  lookup-insert sid sid' (insert t m (or_empty (lookup sid ms))) ms,
  lookup-insert t t' m (or_empty (lookup sid ms)),
  text_eq_iff sid sid',
)

-- A new subscription under an identifier that is free stands behind the ones before it.
insert_free :
    (id : Text) (c : Channel) (m : Dict Text Channel)
    → lookup id m ≡ none
    → map (λ s. s.1) (insert id c m) ≡ map (λ s. s.1) m ++ c ∷ []
insert_free id c [] h = refl
insert_free id c ((j, w) ∷ m) h = ground (arith, insert_free id c m)

insert-erase_free :
    (id : Text) (c : Channel) (m : Dict Text Channel)
    → lookup id m ≡ none
    → erase id (insert id c m) ≡ m
insert-erase_free id c [] h = ground (arith, text_eq_iff id id)
insert-erase_free id c ((j, w) ∷ m) h = ground (arith, insert-erase_free id c m)

insert_again :
    (id : Text) (c d : Channel) (m : Dict Text Channel)
    → insert id d (insert id c m) ≡ insert id d m
insert_again id c d [] = ground (arith, text_eq_iff id id)
insert_again id c d ((j, w) ∷ m) = ground (arith, text_eq_iff id id, insert_again id c d m)

erase_absent : (id : Text) (m : Dict Text Channel) → lookup id m ≡ none → erase id m ≡ m
erase_absent id [] h = refl
erase_absent id ((j, w) ∷ m) h = ground (arith, erase_absent id m)

unsubscribe_from-returned :
    (ms : Subscribers) (sid : Text) (t : MessageType) (c now : ℕ)
    → unsubscribe_from (subscribe_to ms sid t c now).0 (subscribe_to ms sid t c now).1
      ≡ unsubscribe_parts (subscribe_to ms sid t c now).0 (unwrap (new_subscription_id sid t now))
unfolding unsubscribe_from subscribe_to
unsubscribe_from-returned ms sid t c now = refl

-- The entries of a session and type after a subscription and after a removal.
entries-subscribe_to :
    (ms : Subscribers) (sid sid' : Text) (t t' : MessageType) (c now : ℕ)
    → or_empty (type_subscribers (subscribe_to ms sid t c now).0 sid' t') ≡ (
        if text_eq sid sid' && type_key.same t t'
        then insert
            (subscription_identifier (new_subscription_id sid t now))
            c
            (or_empty (type_subscribers ms sid t))
        else or_empty (type_subscribers ms sid' t'))
unfolding subscribe_to type_subscribers
entries-subscribe_to ms sid sid' t t' c now =
    let id = subscription_identifier (new_subscription_id sid t now) in
    let by_id = or_empty (type_subscribers ms sid t) in
    ground (arith, type_subscribers-insert ms sid sid' t t' (insert id c by_id))

entries-remove_subscriber :
    (ms : Subscribers) (sid sid' id : Text) (t t' : MessageType)
    → or_empty (type_subscribers (remove_subscriber ms (sid, t, id)) sid' t') ≡ (
        if text_eq sid sid' && type_key.same t t'
        then erase id (or_empty (type_subscribers ms sid t))
        else or_empty (type_subscribers ms sid' t'))
unfolding remove_subscriber type_subscribers
entries-remove_subscriber ms sid sid' id t t' =
    let by_id = or_empty (type_subscribers ms sid t) in
    ground (
      arith,
      type_subscribers-insert ms sid sid' t t' (erase id by_id),
      erase_absent id by_id,
      text_eq_iff sid sid',
      type_same_iff t t',
    )

abbrev channels : Dict Text Channel → List Channel
channels m = map (λ s. s.1) m

ranged :
    (range : Range)
    → ((m : Dict Text Channel) → Perm (range m) m)
    → (m : Dict Text Channel) → Perm (map (λ s. s.1) (range m)) (map (λ s. s.1) m)
ranged range p m = Perm.map (λ s. s.1) (p m)

-- After a subscription to a session without a dash, under an identifier that is free, the subscribers of
-- the session and type are, in whatever order, the new channel and those before, each as often as before;
-- the subscribers of the others are those before.
pub get_subscribers-subscribe_to :
    (range range' : Range) (ms : Subscribers) (sid sid' : Text) (t t' : MessageType) (c now : ℕ)
    → ((m : Dict Text Channel) → Perm (range m) m)
    → ((m : Dict Text Channel) → Perm (range' m) m)
    → contains sid dash ≡ false
    → lookup (decimal now) (or_empty (type_subscribers ms sid t)) ≡ none
    → Perm (get_subscribers range' (subscribe_to ms sid t c now).0 sid' t') (
        if text_eq sid sid' && type_key.same t t'
        then c ∷ get_subscribers range ms sid t
        else get_subscribers range ms sid' t')
unfolding get_subscribers
get_subscribers-subscribe_to range range' ms sid sid' t t' c now p p' h free =
    Perm.trans (ranged range' p' after) (step (Bool-cases (text_eq sid sid' && type_key.same t t')))
  where
    before : Dict Text Channel
    before = or_empty (type_subscribers ms sid t)

    after : Dict Text Channel
    after = or_empty (type_subscribers (subscribe_to ms sid t c now).0 sid' t')

    Goal : Type 0
    Goal = Perm (channels after) (
        if text_eq sid sid' && type_key.same t t'
        then c ∷ channels (range before)
        else channels (range (or_empty (type_subscribers ms sid' t'))))

    added :
        text_eq sid sid' && type_key.same t t' ≡ true → channels after ≡ channels before ++ c ∷ []
    added e =
        ap channels {x = after} {y = insert (decimal now) c before} (
          ground
            (arith, e, entries-subscribe_to ms sid sid' t t' c now, identifier-new sid t now h))
        ∙ insert_free (decimal now) c before free

    step :
        (text_eq sid sid' && type_key.same t t' ≡ true)
          ⊎ (text_eq sid sid' && type_key.same t t' ≡ false)
        → Goal
    step (inl e) = rw e (
        subst (λ l. Perm l (c ∷ channels (range before))) (sym (added e))
          (Perm.trans (perm_append_comm (channels before) (c ∷ []))
            (Perm.cons c (Perm.symm (ranged range p before)))))
    step (inr e) = rw e (
        subst (λ m. Perm (channels m) (channels (range (or_empty (type_subscribers ms sid' t')))))
          (ground (arith, e, entries-subscribe_to ms sid sid' t t' c now))
          (Perm.symm (ranged range p (or_empty (type_subscribers ms sid' t')))))

-- Unsubscribing by the ID that a subscription returned gives every session and type the subscribers
-- that it had before, for a session without a dash and an identifier that was free.
pub unsubscribe_from-subscribe_to :
    (range : Range) (ms : Subscribers) (sid sid' : Text) (t t' : MessageType) (c now : ℕ)
    → contains sid dash ≡ false
    → lookup (decimal now) (or_empty (type_subscribers ms sid t)) ≡ none
    → let (ms', id) = subscribe_to ms sid t c now in
      get_subscribers range (unsubscribe_from ms' id) sid' t' ≡ get_subscribers range ms sid' t'
unfolding get_subscribers unsubscribe_parts
unsubscribe_from-subscribe_to range ms sid sid' t t' c now h free =
    let one = (subscribe_to ms sid t c now).0 in
    let id = decimal now in
    ap (λ m. map (λ s. s.1) (range m))
      (ground (
        arith,
        unsubscribe_from-returned ms sid t c now,
        ap (unsubscribe_parts one) (unwrap-new_subscription_id sid t now h),
        entries-remove_subscriber one sid sid' id t t',
        entries-subscribe_to ms sid sid t t c now,
        entries-subscribe_to ms sid sid' t t' c now,
        identifier-new sid t now h,
        insert-erase_free id c (or_empty (type_subscribers ms sid t)),
        text_eq_iff sid sid,
        text_eq_iff sid sid',
        type_same_iff t t,
        type_same_iff t t',
      ))

-- A session with a dash in its ID has one place for each message type: a second subscription takes the
-- place of the first, and unsubscribing by the ID that was returned changes nothing.
pub subscribe_to-dashed :
    (range : Range) (ms : Subscribers) (sid sid' : Text) (t t' : MessageType) (c d now later : ℕ)
    → contains sid dash ≡ true
    → let (one, id) = subscribe_to ms sid t c now in
      (get_subscribers range (subscribe_to one sid t d later).0 sid' t'
        ≡ get_subscribers range (subscribe_to ms sid t d later).0 sid' t')
      × (unsubscribe_from one id ≡ one)
unfolding get_subscribers unsubscribe_parts
subscribe_to-dashed range ms sid sid' t t' c d now later h = (
  ap (λ m. map (λ s. s.1) (range m))
      (ground (
        arith,
        entries-subscribe_to (subscribe_to ms sid t c now).0 sid sid' t t' d later,
        entries-subscribe_to ms sid sid t t c now,
        entries-subscribe_to ms sid sid' t t' c now,
        entries-subscribe_to ms sid sid' t t' d later,
        identifier-dashed sid t now h,
        identifier-dashed sid t later h,
        insert_again [] c d (or_empty (type_subscribers ms sid t)),
        text_eq_iff sid sid,
        type_same_iff t t,
      )),
  unsubscribe_from-returned ms sid t c now
      ∙ ap (unsubscribe_parts (subscribe_to ms sid t c now).0) (unwrap-dashed sid t now h),
)
