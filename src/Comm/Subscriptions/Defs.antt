-- ===== src/Comm/Subscriptions/Defs.antt =====
-- The operations of `SessionSubscriptionManager`. Each holds the lock from start to end, so each is one
-- step on the nested map sessionID -> messageType -> subscriptionID -> channel.
use sprinter_signing.Base.{ℕ, Option, none, some, List, [], map, Result, ok, err}
use sprinter_signing.Base.Dict.{Dict, lookup, insert, erase}
use sprinter_signing.Base.Text.{Text, text_key}
use sprinter_signing.Comm.Messages.{MessageType, type_key}
use sprinter_signing.Comm.SubscriptionId.{
  SubscriptionError, new_subscription_id, unwrap, subscription_identifier,
}

abbrev pub Channel : Type 0
Channel = ℕ

abbrev pub Subscribers : Type 0
Subscribers = Dict Text (Dict MessageType (Dict Text Channel))

-- An index into a map that lacks the key gives the empty map.
abbrev pub or_empty {ℓ} : {A : Type ℓ} → Option (List A) → List A
or_empty none = []
or_empty (some m) = m

-- `ms.subscribersMap[sessionID][msgType]`
unfoldable pub type_subscribers : Subscribers → Text → MessageType → Option (Dict Text Channel)
type_subscribers ms sid t = lookup t (or_empty (lookup sid ms))

-- The order in which one call ranges over the subscriptions of a session and type, which are a Go map.
abbrev pub Range : Type 0
Range = Dict Text Channel → Dict Text Channel

unfoldable pub get_subscribers : Range → Subscribers → Text → MessageType → List Channel
unfolding type_subscribers
get_subscribers range ms sid t = map (λ s. s.1) (range (or_empty (type_subscribers ms sid t)))

-- The two inner maps are made where they are missing. `now` is the time at which the ID is made.
unfoldable pub subscribe_to : Subscribers → Text → MessageType → Channel → ℕ → Subscribers × Text
subscribe_to ms sid t channel now =
    let by_type = or_empty (lookup sid ms) in
    let by_id = or_empty (lookup t by_type) in
    let sub_id = new_subscription_id sid t now in
    (
      insert sid (insert t (insert (subscription_identifier sub_id) channel by_id) by_type) ms,
      sub_id,
    )

-- `UnSubscribeFrom` after the ID is taken apart.
unfoldable pub remove_subscriber : Subscribers → Text × MessageType × Text → Subscribers
remove_subscriber ms (sid, t, id) =
    let by_type = or_empty (lookup sid ms) in
    let by_id = or_empty (lookup t by_type) in
    elim (lookup id by_id) [
      | none ↦ ms
      | some channel ↦ insert sid (insert t (erase id by_id) by_type) ms
    ]

-- An ID that does not unwrap is ignored.
unfoldable pub unsubscribe_parts :
    Subscribers → Result SubscriptionError (Text × MessageType × Text) → Subscribers
unsubscribe_parts ms (err e) = ms
unsubscribe_parts ms (ok parts) = remove_subscriber ms parts

unfoldable pub unsubscribe_from : Subscribers → Text → Subscribers
unfolding unsubscribe_parts
unsubscribe_from ms sub_id = unsubscribe_parts ms (unwrap sub_id)
