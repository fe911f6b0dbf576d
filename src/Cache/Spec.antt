-- ===== src/Cache/Spec.antt =====
-- The specification of the signature cache: a map from sessions to signatures that never forgets.
use sprinter_signing.Base.{
  ℕ, ◌+◌, ◌≤◌, ◌≡◌, refl, Option, none, some, List, [], ◌∷◌, ◌++◌, arith, if◌then◌else◌, Result, ok,
  err,
}
use sprinter_signing.Base.Text.{Text, text_eq}
use sprinter_signing.Tss.Process.{TssError}
use sprinter_signing.Tss.Message.{Json, SignatureMessage}
use sprinter_signing.Cache.Defs.{Event, signed, received, cancelled, asked, elapsed}

-- The specification: a total map, which an event changes at one session.
abbrev pub Signatures : Type 0
Signatures = Text → Option Text

abbrev pub no_signatures : Signatures
no_signatures i = none

abbrev pub with_signature : Text → Text → Signatures → Signatures
with_signature id s m i = if text_eq id i then some s else m i

abbrev pub with_message : Result TssError SignatureMessage → Signatures → Signatures
with_message (err e) m = m
with_message (ok msg) m = with_signature msg.id msg.signature m

abbrev pub replay : Json SignatureMessage → List Event → Signatures → Signatures
replay json [] m = m
replay json (signed id s ∷ es) m = replay json es (with_signature id s m)
replay json (received p ∷ es) m = replay json es (with_message (json.unmarshal p) m)
replay json (cancelled ∷ es) m = m
replay json (asked id ∷ es) m = replay json es m
replay json (elapsed t ∷ es) m = replay json es m

-- The time `t` and that which passes in the events.
abbrev pub time_after : List Event → ℕ → ℕ
time_after [] t = t
time_after (signed id s ∷ es) t = time_after es t
time_after (received p ∷ es) t = time_after es t
time_after (cancelled ∷ es) t = time_after es t
time_after (asked id ∷ es) t = time_after es t
time_after (elapsed d ∷ es) t = time_after es (d + t)

-- The history at each reading of `Subscribe`, and the first signature in one.
abbrev pub first_signature :
    Json SignatureMessage → Text → List Event → List (List Event) → Option Text
first_signature json id done [] = replay json done no_signatures id
first_signature json id done (es ∷ ticks) = elim (replay json done no_signatures id) [
  | some s ↦ some s
  | none ↦ first_signature json id (done ++ asked id ∷ es) ticks
]

abbrev pub history : Text → List Event → List (List Event) → List Event
history id done [] = done
history id done (es ∷ ticks) = history id (done ++ asked id ∷ es) ticks

pub time_after_le : (es : List Event) (t : ℕ) → t ≤ time_after es t
time_after_le [] t = omega arith
time_after_le (signed id s ∷ es) t = time_after_le es t
time_after_le (received p ∷ es) t = time_after_le es t
time_after_le (cancelled ∷ es) t = time_after_le es t
time_after_le (asked id ∷ es) t = time_after_le es t
time_after_le (elapsed d ∷ es) t = ground (arith, time_after_le es (d + t))

pub time_after-append :
    (es fs : List Event) (t : ℕ) → time_after (es ++ fs) t ≡ time_after fs (time_after es t)
time_after-append [] fs t = refl
time_after-append (signed id s ∷ es) fs t = time_after-append es fs t
time_after-append (received p ∷ es) fs t = time_after-append es fs t
time_after-append (cancelled ∷ es) fs t = time_after-append es fs t
time_after-append (asked id ∷ es) fs t = time_after-append es fs t
time_after-append (elapsed d ∷ es) fs t = time_after-append es fs (d + t)

pub time_after-history_le :
    (id : Text) (done : List Event) (ticks : List (List Event))
    → time_after done 0 ≤ time_after (history id done ticks) 0
time_after-history_le id done [] = omega arith
time_after-history_le id done (es ∷ ticks) = ground (
  arith,
  time_after-history_le id (done ++ asked id ∷ es) ticks,
  time_after-append done (asked id ∷ es) 0,
  time_after_le es (time_after done 0),
)
