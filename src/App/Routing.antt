-- ===== src/App/Routing.antt =====
-- What becomes of a message that the API sends to the relayer: chains/lighter/chain.go, which gives every
-- message to the handler of Lighter withdrawals. The relayer and the EVM chain of the library are
-- parameters.
use sprinter_signing.Base.{
  ℕ, ◌≡◌, ◌≢◌, ◌↔◌, ◌∙◌, refl, sym, true, false, Option, none, some, List, ◌∷◌, arith, subst,
  if◌then◌else◌, Result, ok, err, ◌==◌, contains,
}
use sprinter_signing.Base.Int.{ℤ}
use sprinter_signing.Base.Dict.{Dict, lookup, lookup-insert, nat_key}
use sprinter_signing.Base.Text.{Text, text_eq, text_eq_iff}
use sprinter_signing.Chains.Tokens.{Address}
use sprinter_signing.Chains.Handler.{HandlerError}
use sprinter_signing.Chains.Lighter.{lighter_domain_id, LighterData}
use sprinter_signing.Config.Lighter.{LighterConfig}
use sprinter_signing.Api.Signing.{
  Message, across, lifi_escrow, lighter, sprinter_credit, SigningBody, Hex, lighter_protocol,
  across_protocol, lifi_escrow_protocol, destination, Dispatched, forwarded, unknown_protocol,
  nil_amount, validate, dispatch, handle_signing, handle_signing_lem,
}
use sprinter_signing.Api.Numbers.{ApiError}
use sprinter_signing.App.Contracts.{Entry, Contracts}
use sprinter_signing.App.Domains.{
  Registered, Domain, evm_chain, lighter_chain, Chains, no_chains, Calls, register_chains,
  register_lighter,
}
use sprinter_signing.App.Served.{register_chains-supported}
use sprinter_signing.App.Delivery.{find_handler}

-- What receives a message: a registered handler, that of Lighter withdrawals, or none; or the data of
-- the message are not of the type that the handler asserts.
pub data Received : Type 0 where
  by_registered : Registered → Received
  by_lighter : LighterData → Received
  unhandled no_chain wrong_data : Received

-- `m.Data.(*LighterData)`
abbrev pub lighter_data : Message → Received
lighter_data (lighter n d) = by_lighter d
lighter_data (across n d) = wrong_data
lighter_data (lifi_escrow n d) = wrong_data
lighter_data (sprinter_credit n d) = wrong_data

abbrev pub registered_or : Option Registered → Received
registered_or none = unhandled
registered_or (some r) = by_registered r

-- The library's part of the relayer: what its EVM chain makes of a message with the handlers that are
-- registered, and how the relayer gives a message to one of its chains.
pub record Relayer : Type 0 where
  pub receive_by_evm_chain : List Registered → Message → Received
  pub route : (Domain → Message → Received) → Dict ℕ Domain → Message → Received

-- The documented behaviour: an EVM chain gives a message to the handler that is registered under the
-- type of the message, and a message is received by the chain of its destination.
pub record RelayerLaws (lib : Relayer) : Type 0 where
  pub dispatches :
      (rs : List Registered) (m : Message)
      → lib.receive_by_evm_chain rs m ≡ registered_or (find_handler m rs)
  pub routes :
      (receive : Domain → Message → Received) (domains : Dict ℕ Domain) (m : Message) (d : Domain)
      → lookup (destination m) domains ≡ some d
      → lib.route receive domains m ≡ receive d m

-- `ReceiveMessage` of a chain of the relayer, where `LighterChain` is the repository's.
unfoldable pub receive_message : Relayer → Domain → Message → Received
receive_message lib (evm_chain rs block) m = lib.receive_by_evm_chain rs m
receive_message lib (lighter_chain c) m = lighter_data m

other_protocol :
    (t u : Text)
    → text_eq u lighter_protocol ≡ false
    → text_eq t u ≡ true
    → text_eq t lighter_protocol ≡ false
other_protocol t u ne e =
    subst (λ v. text_eq v lighter_protocol ≡ false) (sym ((text_eq_iff t u).0 e)) ne

-- The message for a request has the data of a Lighter withdrawal exactly if its protocol is Lighter's.
dispatch-protocol :
    (hex : Hex) (b : SigningBody) (chain : ℕ) (nonce : ℤ) (m : Message)
    → dispatch hex b chain nonce ≡ forwarded m
    → (lighter_data m ≡ wrong_data) ↔ (text_eq b.protocol lighter_protocol ≡ false)
unfolding dispatch text_eq
dispatch-protocol hex b chain nonce m h = ground (
  arith,
  h,
  other_protocol b.protocol across_protocol refl,
  other_protocol b.protocol lifi_escrow_protocol refl,
)

sent-protocol :
    (hex : Hex) (chains : List ℕ) (chain_text : Text) (b : SigningBody)
    (reply : Message → Option HandlerError) (m : Message) (ms : List Message)
    → (handle_signing hex chains chain_text (some b) reply).0 ≡ m ∷ ms
    → (lighter_data m ≡ wrong_data) ↔ (text_eq b.protocol lighter_protocol ≡ false)
unfolding handle_signing
sent-protocol hex chains chain_text b reply m ms sent = step (validate chains chain_text b) refl
  where
    dispatched :
        (chain : ℕ) (nonce : ℤ) (d : Dispatched)
        → validate chains chain_text b ≡ ok (chain, nonce)
        → dispatch hex b chain nonce ≡ d
        → (lighter_data m ≡ wrong_data) ↔ (text_eq b.protocol lighter_protocol ≡ false)
    dispatched chain nonce (forwarded m') v e =
        dispatch-protocol hex b chain nonce m (ground (arith, sent, v, e))
    dispatched chain nonce unknown_protocol v e = absurd (ground (arith, sent, v, e))
    dispatched chain nonce nil_amount v e = absurd (ground (arith, sent, v, e))

    step :
        (v : Result ApiError (ℕ × ℤ))
        → validate chains chain_text b ≡ v
        → (lighter_data m ≡ wrong_data) ↔ (text_eq b.protocol lighter_protocol ≡ false)
    step (err e) v = absurd (ground (arith, sent, v))
    step (ok (chain, nonce)) v = dispatched chain nonce (dispatch hex b chain nonce) v refl

module _ (calls : Calls) (mpc_address : Address) (contracts : Contracts) where
  -- A message that the API sends for a request goes to a chain of the relayer. An EVM chain gives it to
  -- the handler that is registered for its protocol, if there is one. The Lighter chain gives it to the
  -- handler of Lighter withdrawals whatever the protocol of the request is, and the assertion on its data
  -- fails for every protocol but Lighter's.
  pub handle_signing-route :
      (lib : Relayer) (laws : RelayerLaws lib) (entries : List Entry)
      (lighter_config : LighterConfig) (s : Chains) (hex : Hex) (chain_text : Text)
      (b : SigningBody) (reply : Message → Option HandlerError) (m : Message) (ms : List Message)
      → register_chains calls mpc_address contracts entries no_chains ≡ ok s
      → let all = register_lighter lighter_config s in
        (handle_signing hex all.supported_chains chain_text (some b) reply).0 ≡ m ∷ ms
        → let received =
            lib.route (receive_message lib) (register_lighter lighter_config s).domains m in
          (destination m ≢ lighter_domain_id
            → (rs : List Registered) × (block : Option ℕ) × (lookup (destination m) s.domains
                ≡ some (evm_chain rs block))
              × (received ≡ registered_or (find_handler m rs)))
          × (destination m ≡ lighter_domain_id
              → (received ≡ wrong_data) ↔ (text_eq b.protocol lighter_protocol ≡ false))
  unfolding receive_message register_lighter
  handle_signing-route lib laws entries lighter_config s hex chain_text b reply m ms h sent = (
    λ ne.
        let (rs, block, found) =
          register_chains-supported calls mpc_address contracts (destination m) entries s h
            (ground (arith, ne, supported)) in
        (
          rs,
          block,
          found,
          laws.routes (receive_message lib) domains m (evm_chain rs block)
                (ground (arith, ne, found, placed))
              ∙ laws.dispatches rs m,
        ),
    λ e. ground (
      arith,
      laws.routes (receive_message lib) domains m (lighter_chain lighter_config)
          (ground (arith, e, placed)),
      sent-protocol hex chains chain_text b reply m ms sent,
    ),
  )
    where
      domains : Dict ℕ Domain
      domains = (register_lighter lighter_config s).domains

      chains : List ℕ
      chains = lighter_domain_id ∷ s.supported_chains

      supported : contains chains (destination m) ≡ true
      supported = ((handle_signing_lem hex chains chain_text b reply m ms).0 sent).4

      placed : lookup (destination m) (register_lighter lighter_config s).domains ≡ (
          if lighter_domain_id == destination m
          then some (lighter_chain lighter_config)
          else lookup (destination m) s.domains)
      placed =
          lookup-insert lighter_domain_id (destination m) (lighter_chain lighter_config) s.domains
