-- ===== src/Cache/Defs.antt =====
-- The state and the operations of the signature cache. ttlcache is a parameter with its documented
-- behaviour: an item is there until its time to live is over, and reading it starts that time anew.
use sprinter_signing.Base.{
  ℕ, ◌+◌, ◌≤◌, ◌<◌, ◌≡◌, ◌⊎◌, Bool, true, false, Option, none, some, List, [], ◌∷◌, ◌++◌,
  if◌then◌else◌, Result, ok, err,
}
use sprinter_signing.Base.Text.{Text, text_eq}
use sprinter_signing.Tss.Process.{TssError, failure}
use sprinter_signing.Tss.Message.{Json, SignatureMessage, unmarshal_signature_message}

-- `ttlcache.Cache[string, V]` in states `S`: reading changes the state, as it touches the item, and
-- so does time. `left` is what is left of an item's time.
pub record TtlCache (V S : Type 0) : Type 0 where
  pub empty : S
  pub set : Text → V → S → S
  pub get : Text → S → Option V × S
  pub wait : ℕ → S → S
  pub left : Text → S → ℕ

-- The documented behaviour, for the time to live `ttl`.
pub record Laws {V S : Type 0} (ttl : ℕ) (c : TtlCache V S) : Type 0 where
  pub get_empty : (i : Text) → (c.get i c.empty).0 ≡ none
  pub get_set :
      (i j : Text) (v : V) (s : S)
      → (c.get i (c.set j v s)).0 ≡ (if text_eq j i then some v else (c.get i s).0)
  pub get_touched : (i j : Text) (s : S) → (c.get i (c.get j s).1).0 ≡ (c.get i s).0
  pub get_waited :
      (i : Text) (t : ℕ) (s : S)
      → ((c.get i (c.wait t s)).0 ≡ none) ⊎ ((c.get i (c.wait t s)).0 ≡ (c.get i s).0)
  pub get_fresh :
      (i : Text) (t : ℕ) (s : S) → t < c.left i s → (c.get i (c.wait t s)).0 ≡ (c.get i s).0
  pub left_set :
      (i j : Text) (v : V) (s : S)
      → c.left i (c.set j v s) ≡ (if text_eq j i then ttl else c.left i s)
  pub left_touched : (i j : Text) (s : S) → c.left i s ≤ c.left i (c.get j s).1
  pub left_waited : (i : Text) (t : ℕ) (s : S) → c.left i s ≤ c.left i (c.wait t s) + t

-- `SIGNATURE_TTL`, in milliseconds.
abbrev pub signature_ttl : ℕ
signature_ttl = 600000

-- `SignatureCache` with the calls of `EndProcess` that it made; `watching` until `Watch` returns.
pub record SignatureCache (S : Type 0) : Type 0 where
  pub sig_cache : S
  pub watching : Bool
  pub ended : List Text

-- What happens to a cache: a signature comes on the channel of this relayer's signings or in a message,
-- the context of `Watch` is done, another goroutine asks for a signature, time passes.
pub data Event : Type 0 where
  signed : Text → Text → Event
  received : Text → Event
  cancelled : Event
  asked : Text → Event
  elapsed : ℕ → Event

module _ {S : Type 0} (ttl_cache : TtlCache Text S) (json : Json SignatureMessage) where
  -- `NewSignatureCache`, and the start of `Watch`.
  unfoldable pub new_signature_cache : SignatureCache S
  new_signature_cache = record { sig_cache = ttl_cache.empty; watching = true; ended = [] }

  abbrev pub put : Text → Text → SignatureCache S → SignatureCache S
  put id signature c = record c {
    sig_cache = ttl_cache.set id signature c.sig_cache;
    ended = c.ended ++ id ∷ [];
  }

  abbrev pub put_message : Result TssError SignatureMessage → SignatureCache S → SignatureCache S
  put_message (err e) c = c
  put_message (ok msg) c = put msg.id msg.signature c

  -- `Signature`
  unfoldable pub signature_of : Text → SignatureCache S → Result TssError Text × SignatureCache S
  signature_of id c =
      let (found, touched) = ttl_cache.get id c.sig_cache in
      (elim found [ none ↦ err (failure 0) | some s ↦ ok s ], record c { sig_cache = touched })

  -- One turn of the loop of `Watch`, and what goes on beside it.
  unfoldable pub step : Event → SignatureCache S → SignatureCache S
  unfolding unmarshal_signature_message signature_of
  step (signed id signature) c = if c.watching then put id signature c else c
  step (received payload) c =
      if c.watching then put_message (unmarshal_signature_message json payload) c else c
  step cancelled c = record c { watching = false }
  step (asked id) c = (signature_of id c).1
  step (elapsed t) c = record c { sig_cache = ttl_cache.wait t c.sig_cache }

  unfoldable pub watch : List Event → SignatureCache S → SignatureCache S
  unfolding step
  watch [] c = c
  watch (e ∷ es) c = watch es (step e c)

  -- `Subscribe`: the signature that it sends. It reads at once and then at each tick; `ticks` holds what
  -- happens before each, and the context is done after the last.
  unfoldable pub subscribe : Text → List (List Event) → SignatureCache S → Option Text
  unfolding signature_of watch
  subscribe id [] c = (ttl_cache.get id c.sig_cache).0
  subscribe id (es ∷ ticks) c =
      let later = subscribe id ticks (watch es (signature_of id c).1) in
      elim (ttl_cache.get id c.sig_cache).0 [ some s ↦ some s | none ↦ later ]
