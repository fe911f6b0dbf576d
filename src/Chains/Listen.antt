-- ===== src/Chains/Listen.antt =====
-- `Listen` of the message handlers of chains/evm/message/ and chains/lighter/message/: the requests that
-- another relayer has broadcast. The JSON of a request is a parameter.
use sprinter_signing.Base.{
  ◌≡◌, ◌≢◌, refl, Bool, true, false, Option, none, some, List, [], ◌∷◌, ◌++◌, arith, All, ap, sym,
  subst, ◌==◌, ◌⊎◌, inl, inr, Bool-cases,
}
use sprinter_signing.Base.Text.{Text}
use sprinter_signing.Peers.{PeerId}
use sprinter_signing.Comm.Messages.{
  MessageType, across_msg, lifi_escrow_msg, lifi_escrow_session_id, sprinter_credit_msg,
  lifi_unlock_msg, lighter_msg,
}
use sprinter_signing.Chains.Handler.{
  Effect, broadcast_payload, session_of, Handled, Signed, signings, broadcasts, notify,
  sign_and_execute,
}
use sprinter_signing.Chains.Across
use sprinter_signing.Chains.Across.{AcrossMessageHandler, AcrossData, verify}
use sprinter_signing.Chains.LifiEscrow
use sprinter_signing.Chains.LifiEscrow.{
  LifiEscrowMessageHandler, LifiEscrowData, verify_order, borrow_token,
}
use sprinter_signing.Chains.SprinterCredit
use sprinter_signing.Chains.SprinterCredit.{SprinterCreditMessageHandler, SprinterCreditData}
use sprinter_signing.Chains.LifiUnlock
use sprinter_signing.Chains.LifiUnlock.{LifiUnlockHandler, LifiUnlockData, lifi_unlock_hash}
use sprinter_signing.Chains.Lighter
use sprinter_signing.Chains.Lighter.{LighterMessageHandler, LighterData, verify_withdrawal}

-- What a turn of the loop of `Listen` waits for.
pub data Wake : Type 0 where
  message : Text → Wake
  cancelled : Wake

-- The loop, for a request of type `D`: what it does for each message, in its order, and whether it is still
-- subscribed. A message that cannot be read is skipped, and so is the error of a handler; the EVM handlers
-- run beside the loop, the Lighter handler in it.
module _ {D : Type 0} (unmarshal : Text → Option D) (handle : D → Handled (Unit {0})) where
  abbrev pub received : Text → List Effect
  received payload = elim (unmarshal payload) [ none ↦ [] | some d ↦ (handle d).effects ]

  unfoldable pub listen : List Wake → List Effect × Bool
  listen [] = ([], true)
  listen (cancelled ∷ wakes) = ([], false)
  listen (message payload ∷ wakes) =
      let (effects, subscribed) = listen wakes in (received payload ++ effects, subscribed)

-- `Listen` of each handler, from its subscription on.
unfoldable pub listen_across :
    (Text → Option AcrossData) → AcrossMessageHandler → List Wake → List Effect × Bool
unfolding listen Across.handle_message
listen_across unmarshal h = listen unmarshal (Across.handle_message h)

unfoldable pub listen_lifi_escrow :
    (Text → Option LifiEscrowData) → LifiEscrowMessageHandler → List Wake → List Effect × Bool
unfolding listen LifiEscrow.handle_message
listen_lifi_escrow unmarshal h = listen unmarshal (LifiEscrow.handle_message h)

unfoldable pub listen_sprinter_credit :
    (Text → Option SprinterCreditData)
    → SprinterCreditMessageHandler
    → List Wake
    → List Effect × Bool
unfolding listen SprinterCredit.handle_message
listen_sprinter_credit unmarshal h = listen unmarshal (SprinterCredit.handle_message h)

unfoldable pub listen_lifi_unlock :
    (Text → Option LifiUnlockData) → LifiUnlockHandler → List Wake → List Effect × Bool
unfolding listen LifiUnlock.handle_message
listen_lifi_unlock unmarshal h = listen unmarshal (LifiUnlock.handle_message h)

unfoldable pub listen_lighter :
    (Text → Option LighterData) → LighterMessageHandler → List Wake → List Effect × Bool
unfolding listen Lighter.handle_message
listen_lighter unmarshal h = listen unmarshal (Lighter.handle_message h)

-- The relayer tells nobody, and what it signs is coordinated by `coordinator`.
abbrev pub IsRelayed : PeerId → List Effect → Type 0
IsRelayed coordinator es =
    (broadcasts es ≡ []) × All (λ (s : Signed). s.2 ≡ coordinator) (signings es)

across-IsRelayed :
    (h : AcrossMessageHandler) (request : AcrossData)
    → request.coordinator ≢ 0
    → IsRelayed request.coordinator (Across.handle_message h request).effects
unfolding Across.handle_message verify notify sign_and_execute
across-IsRelayed h request n = ground arith

lifi_escrow-IsRelayed :
    (h : LifiEscrowMessageHandler) (request : LifiEscrowData)
    → request.coordinator ≢ 0
    → IsRelayed request.coordinator (LifiEscrow.handle_message h request).effects
unfolding LifiEscrow.handle_message verify_order borrow_token notify sign_and_execute
lifi_escrow-IsRelayed h request n = ground arith

sprinter_credit-IsRelayed :
    (h : SprinterCreditMessageHandler) (request : SprinterCreditData)
    → request.coordinator ≢ 0
    → IsRelayed request.coordinator (SprinterCredit.handle_message h request).effects
unfolding SprinterCredit.handle_message notify sign_and_execute
sprinter_credit-IsRelayed h request n = ground arith

lifi_unlock-IsRelayed :
    (h : LifiUnlockHandler) (request : LifiUnlockData)
    → request.coordinator ≢ 0
    → IsRelayed request.coordinator (LifiUnlock.handle_message h request).effects
unfolding LifiUnlock.handle_message lifi_unlock_hash notify sign_and_execute
lifi_unlock-IsRelayed h request n = ground arith

lighter-IsRelayed :
    (h : LighterMessageHandler) (request : LighterData)
    → request.coordinator ≢ 0
    → IsRelayed request.coordinator (Lighter.handle_message h request).effects
unfolding Lighter.handle_message verify_withdrawal notify sign_and_execute
lighter-IsRelayed h request n = ground arith

module _ {D : Type 0} (unmarshal : Text → Option D) (handle : D → Handled (Unit {0})) where
  append-nil : (es : List Effect) → es ++ [] ≡ es
  append-nil [] = refl
  append-nil (e ∷ es) = ap (λ l. e ∷ l) (append-nil es)

  listen-one :
      (payload : Text) (d : D)
      → unmarshal payload ≡ some d
      → (listen unmarshal handle (message payload ∷ [])).0 ≡ (handle d).effects
  unfolding listen
  listen-one payload d e = ground (arith, e, append-nil (handle d).effects)

  listened :
      (c : PeerId) (payload : Text) (d : D)
      → unmarshal payload ≡ some d
      → IsRelayed c (handle d).effects
      → IsRelayed c (listen unmarshal handle (message payload ∷ [])).0
  listened c payload d e r = subst (IsRelayed c) (sym (listen-one payload d e)) r

-- A broadcast of a handler carries its request with the relayer as the coordinator, and is the only one.
abbrev pub Sends : List Effect → MessageType → Option Text → PeerId → Type 0
Sends es type encoded coordinator =
    (payload session : Text) (t : MessageType) (rest : List (MessageType × Text × Text))
    → broadcasts es ≡ (t, session, payload) ∷ rest
    → (rest ≡ []) × (t ≡ type) × (encoded ≡ some payload) × (coordinator ≡ 0)

across-Sends :
    (h : AcrossMessageHandler) (request : AcrossData)
    → Sends
        (Across.handle_message h request).effects
        across_msg
        (h.marshal (record request { coordinator = h.services.host_id }))
        request.coordinator
unfolding Across.handle_message verify notify sign_and_execute
across-Sends h request payload session t rest e = ground (arith, e)

lifi_escrow-broadcasts :
    (h : LifiEscrowMessageHandler) (request : LifiEscrowData) (encoded : Option Text)
    → h.marshal (record request { coordinator = h.services.host_id }) ≡ encoded
    → request.coordinator ≡ 0
    → broadcasts (LifiEscrow.handle_message h request).effects
      ≡ broadcasts
          (broadcast_payload lifi_escrow_msg (session_of h.chain_id lifi_escrow_session_id) encoded)
unfolding LifiEscrow.handle_message verify_order borrow_token notify sign_and_execute
lifi_escrow-broadcasts h request none m z = ground (arith, m, z)
lifi_escrow-broadcasts h request (some p) m z = ground (arith, m, z)

lifi_escrow-Sends :
    (h : LifiEscrowMessageHandler) (request : LifiEscrowData)
    → Sends
        (LifiEscrow.handle_message h request).effects
        lifi_escrow_msg
        (h.marshal (record request { coordinator = h.services.host_id }))
        request.coordinator
lifi_escrow-Sends h request payload session t rest e =
    step (Bool-cases (request.coordinator == 0))
      (h.marshal (record request { coordinator = h.services.host_id })) refl
  where
    step :
        (request.coordinator == 0 ≡ true) ⊎ (request.coordinator == 0 ≡ false)
        → (encoded : Option Text)
        → h.marshal (record request { coordinator = h.services.host_id }) ≡ encoded
        → (rest ≡ []) × (t ≡ lifi_escrow_msg) × (encoded ≡ some payload) × (request.coordinator ≡ 0)
    step (inl z) none m =
        absurd (ground (arith, e, lifi_escrow-broadcasts h request none m (ground (arith, z))))
    step (inl z) (some p) m =
        ground (arith, e, z, lifi_escrow-broadcasts h request (some p) m (ground (arith, z)))
    step (inr n) encoded m =
        absurd (ground (arith, e, (lifi_escrow-IsRelayed h request (λ z. ground (arith, n, z))).0))

sprinter_credit-Sends :
    (h : SprinterCreditMessageHandler) (request : SprinterCreditData)
    → Sends
        (SprinterCredit.handle_message h request).effects
        sprinter_credit_msg
        (h.marshal (record request { coordinator = h.services.host_id }))
        request.coordinator
unfolding SprinterCredit.handle_message notify sign_and_execute
sprinter_credit-Sends h request payload session t rest e = ground (arith, e)

lifi_unlock-Sends :
    (h : LifiUnlockHandler) (request : LifiUnlockData)
    → Sends
        (LifiUnlock.handle_message h request).effects
        lifi_unlock_msg
        (h.marshal (record request { coordinator = h.services.host_id }))
        request.coordinator
unfolding LifiUnlock.handle_message lifi_unlock_hash notify sign_and_execute
lifi_unlock-Sends h request payload session t rest e = ground (arith, e)

lighter-Sends :
    (h : LighterMessageHandler) (request : LighterData)
    → Sends
        (Lighter.handle_message h request).effects
        lighter_msg
        (h.marshal (record request { coordinator = h.services.host_id }))
        request.coordinator
unfolding Lighter.handle_message verify_withdrawal notify sign_and_execute
lighter-Sends h request payload session t rest e = ground (arith, e)

-- What one relayer broadcasts, the other does with.
abbrev pub Relays :
    {D : Type 0}
    → (Text → Option D)
    → (D → Option Text)
    → List Effect
    → MessageType
    → PeerId
    → (List Wake → List Effect × Bool)
    → Type 0
Relays {D = D} unmarshal marshal sent type host listening =
    (payload session : Text) (t : MessageType) (rest : List (MessageType × Text × Text))
    → ((d : D) (p : Text) → marshal d ≡ some p → unmarshal p ≡ some d)
    → host ≢ 0
    → broadcasts sent ≡ (t, session, payload) ∷ rest
    → (rest ≡ []) × (t ≡ type) × IsRelayed host (listening (message payload ∷ [])).0

-- When a relayer broadcasts a request, whichever of the five handlers does, it does so once, with itself as
-- the coordinator of what it encodes: another relayer whose handler of the same kind reads the message, for
-- an encoding that reads back, does not broadcast it again, and whatever it signs for it is coordinated by
-- the first.
pub listen-IsRelayed :
    ((h h' : AcrossMessageHandler) (request : AcrossData) (unmarshal : Text → Option AcrossData)
      → Relays unmarshal h.marshal
          (Across.handle_message h request).effects
          across_msg
          h.services.host_id
          (listen_across unmarshal h'))
    × ((h h' : LifiEscrowMessageHandler) (request : LifiEscrowData)
          (unmarshal : Text → Option LifiEscrowData)
        → Relays unmarshal h.marshal
            (LifiEscrow.handle_message h request).effects
            lifi_escrow_msg
            h.services.host_id
            (listen_lifi_escrow unmarshal h'))
    × ((h h' : SprinterCreditMessageHandler) (request : SprinterCreditData)
          (unmarshal : Text → Option SprinterCreditData)
        → Relays unmarshal h.marshal
            (SprinterCredit.handle_message h request).effects
            sprinter_credit_msg
            h.services.host_id
            (listen_sprinter_credit unmarshal h'))
    × ((h h' : LifiUnlockHandler) (request : LifiUnlockData)
          (unmarshal : Text → Option LifiUnlockData)
        → Relays unmarshal h.marshal
            (LifiUnlock.handle_message h request).effects
            lifi_unlock_msg
            h.services.host_id
            (listen_lifi_unlock unmarshal h'))
    × ((h h' : LighterMessageHandler) (request : LighterData)
          (unmarshal : Text → Option LighterData)
        → Relays unmarshal h.marshal
            (Lighter.handle_message h request).effects
            lighter_msg
            h.services.host_id
            (listen_lighter unmarshal h'))
unfolding listen_across listen_lifi_escrow listen_sprinter_credit listen_lifi_unlock listen_lighter
listen-IsRelayed = (
  λ h h' r u payload session t rest back ne e.
      let (one, type, encoded, own) = across-Sends h r payload session t rest e in
      let d = record r { coordinator = h.services.host_id } in
      (
        one,
        type,
        listened u (Across.handle_message h') h.services.host_id payload d (back d payload encoded)
            (across-IsRelayed h' d ne),
      ),
  λ h h' r u payload session t rest back ne e.
      let (one, type, encoded, own) = lifi_escrow-Sends h r payload session t rest e in
      let d = record r { coordinator = h.services.host_id } in
      (
        one,
        type,
        listened u (LifiEscrow.handle_message h') h.services.host_id payload d
            (back d payload encoded) (lifi_escrow-IsRelayed h' d ne),
      ),
  λ h h' r u payload session t rest back ne e.
      let (one, type, encoded, own) = sprinter_credit-Sends h r payload session t rest e in
      let d = record r { coordinator = h.services.host_id } in
      (
        one,
        type,
        listened u (SprinterCredit.handle_message h') h.services.host_id payload d
            (back d payload encoded) (sprinter_credit-IsRelayed h' d ne),
      ),
  λ h h' r u payload session t rest back ne e.
      let (one, type, encoded, own) = lifi_unlock-Sends h r payload session t rest e in
      let d = record r { coordinator = h.services.host_id } in
      (
        one,
        type,
        listened u (LifiUnlock.handle_message h') h.services.host_id payload d
            (back d payload encoded) (lifi_unlock-IsRelayed h' d ne),
      ),
  λ h h' r u payload session t rest back ne e.
      let (one, type, encoded, own) = lighter-Sends h r payload session t rest e in
      let d = record r { coordinator = h.services.host_id } in
      (
        one,
        type,
        listened u (Lighter.handle_message h') h.services.host_id payload d (back d payload encoded)
            (lighter-IsRelayed h' d ne),
      ),
)
