-- ===== src/Api/Status.antt =====
-- api/handlers/signing.go: `StatusHandler`, the stream that a client waits on for the signature of its
-- deposit. `SetString(s, 0)`, which reads the prefixes of Go's literals, and hex are parameters.
use sprinter_signing.Base.{
  ℕ, ◌++◌, ◌^◌, ◌<◌, ◌≡◌, true, Option, none, some, List, ◌∷◌, arith, contains, Result, ok, ◌>>=◌,
  ◌>>◌, guard, or_fail,
}
use sprinter_signing.Base.Int.{ℤ, pos}
use sprinter_signing.Base.Text.{Text}
use sprinter_signing.Comm.SubscriptionId.{dash}
use sprinter_signing.Tss.Message.{Json, SignatureMessage}
use sprinter_signing.Cache.Defs.{
  TtlCache, Laws, signature_ttl, SignatureCache, Event, new_signature_cache, watch, subscribe,
}
use sprinter_signing.Cache.Refinement.{subscribe_lem}
use sprinter_signing.Cache.Spec.{first_signature, history, time_after}
use sprinter_signing.Chains.Handler.{signed_decimal, session_of, session_of-injective}
use sprinter_signing.Api.Numbers.{uint64}

-- Statuses 400, 404 and 400, with their reasons.
pub data StatusError : Type 0 where
  invalid_chain not_supported missing_deposit : StatusError

-- The checks of `HandleRequest`; the result is the ID under which it subscribes.
unfoldable pub requested_id :
    (Text → Option ℤ) → List ℕ → Text → Option Text → Result StatusError Text
unfolding uint64
requested_id set_string chains chain_text deposit = do
  chain ← or_fail (set_string chain_text) invalid_chain
  guard (contains chains (uint64 chain)) not_supported
  id ← or_fail deposit missing_deposit
  ok (signed_decimal chain ++ dash ∷ id)

module _ {S : Type 0} (ttl_cache : TtlCache Text S) (json : Json SignatureMessage) where
  -- `HandleRequest`: an error, or what it streams before the client's context is done: the signature in
  -- hex, or nothing. `ticks` is what happens to the cache meanwhile.
  unfoldable pub handle_request :
      (Text → Option ℤ)
      → (Text → Text)
      → List ℕ
      → Text
      → Option Text
      → List (List Event)
      → SignatureCache S
      → Result StatusError (Option Text)
  unfolding requested_id
  handle_request set_string encode_hex chains chain_text deposit ticks c = do
    id ← requested_id set_string chains chain_text deposit
    ok (elim (subscribe ttl_cache json id ticks c) [ some s ↦ some (encode_hex s) | none ↦ none ])

  -- A request for a supported chain of 64 bits streams the first signature that it can see of the
  -- session of that chain and deposit, if less time than the ten minutes that a signature is kept passes from
  -- the making of the cache to the end of the request. Such a
  -- session is also that of no other chain or deposit.
  pub handle_request_lem :
      (laws : Laws signature_ttl ttl_cache) (set_string : Text → Option ℤ)
      (encode_hex : Text → Text) (chains : List ℕ) (chain_text deposit : Text) (n : ℕ)
      (ticks : List (List Event)) (done : List Event)
      → set_string chain_text ≡ some (pos n)
      → n < 2 ^ 64
      → contains chains n ≡ true
      → time_after (history (session_of n deposit) done ticks) 0 < signature_ttl
      → (handle_request set_string encode_hex chains chain_text
            (some deposit)
            ticks
            (watch ttl_cache json done (new_signature_cache ttl_cache json))
          ≡ ok (elim (first_signature json (session_of n deposit) done ticks) [
            | some s ↦ some (encode_hex s)
            | none ↦ none
          ]))
        × ((m : ℕ) (d : Text) → session_of m d ≡ session_of n deposit → (m ≡ n) × (d ≡ deposit))
  unfolding handle_request requested_id uint64
  handle_request_lem laws set_string encode_hex chains chain_text deposit n ticks done s b c t = (
    ground (arith, s, c, b, subscribe_lem ttl_cache laws json (session_of n deposit) done ticks t),
    λ m d e. session_of-injective m n d deposit e,
  )
