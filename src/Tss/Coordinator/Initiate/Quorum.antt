-- ===== src/Tss/Coordinator/Initiate/Quorum.antt =====
-- A process is started only with peers that said that they are ready, each counted once.
use sprinter_signing.Base.{
  ◌≡◌, refl, ◌⊎◌, inl, Bool, true, false, Option, List, [], ◌∷◌, arith, ==_iff, Result, ok, err,
  contains, contains-append, Distinct, Distinct-snoc, Elem, All, All-append,
}
use sprinter_signing.Base.Text.{Text}
use sprinter_signing.Peers.{PeerId}
use sprinter_signing.Tss.Process.{TssError, TssProcess}
use sprinter_signing.Tss.Coordinator.Initiate.{
  Event, process_ended, ready_message, tick, done, Action, start_process, Turn, continue, return,
  add_ready, and_then, send_start, if_ready, turn, loop, initiate,
}

-- The peers from which a ready message arrived.
abbrev pub senders : List Event → List PeerId
senders [] = []
senders (ready_message p ∷ es) = p ∷ senders es
senders (_ ∷ es) = senders es

senders-head :
    (e : Event) (es : List Event) (p : PeerId)
    → Elem p (senders (e ∷ []))
    → Elem p (senders (e ∷ es))
senders-head (ready_message q) es p m = ground arith
senders-head (process_ended r) es p m = cc
senders-head tick es p m = cc
senders-head done es p m = cc

senders-tail :
    (e : Event) (es : List Event) (p : PeerId) → Elem p (senders es) → Elem p (senders (e ∷ es))
senders-tail (ready_message q) es p m = ground arith
senders-tail (process_ended r) es p m = m
senders-tail tick es p m = m
senders-tail done es p m = m

-- The ready peers of the host: no peer twice, and each is the host itself or sent a ready message and
-- is not excluded.
pub record IsReadySet (host : PeerId) (excluded sent rs : List PeerId) : Type 0 where
  pub distinct : Distinct rs
  pub from_messages :
      (p : PeerId) → Elem p rs → (p ≡ host) ⊎ (Elem p sent × (contains excluded p ≡ false))

add_ready-IsReadySet :
    (host from : PeerId) (excluded sent rs : List PeerId)
    → Elem from sent
    → IsReadySet host excluded sent rs
    → IsReadySet host excluded sent (add_ready excluded rs from)
unfolding add_ready
add_ready-IsReadySet host from excluded sent rs e s = record {
  distinct = ground (arith, Distinct-snoc rs from, s.distinct);
  from_messages =
      λ p m. ground (arith, contains-append rs (from ∷ []) p, s.from_messages p, ==_iff from p);
}

module _ (process : TssProcess) (marshal_start : Text → Result TssError Text) (host : PeerId)
    (excluded sent : List PeerId) where
  -- What justifies an action: a start is for a ready set that the process accepts.
  abbrev pub IsJustified : Action → Type 0
  IsJustified (start_process params) =
      (rs : List PeerId) × (params ≡ process.start_params rs)
      × (process.ready rs excluded ≡ ok true)
      × IsReadySet host excluded sent rs
  IsJustified _ = Unit {0}

  abbrev IsGoodTurn : Turn → Type 0
  IsGoodTurn (continue rs actions) = IsReadySet host excluded sent rs × All IsJustified actions
  IsGoodTurn (return r actions) = All IsJustified actions

  send_start-good :
      (rs : List PeerId) (r : Result TssError Text)
      → process.ready rs excluded ≡ ok true
      → IsReadySet host excluded sent rs
      → IsGoodTurn (send_start process marshal_start excluded rs (process.start_params rs) r)
  unfolding send_start
  send_start-good rs (err e) h s = tt
  send_start-good rs (ok msg) h s = (s, (tt, (tt, ((rs, refl, h, s), tt))))

  if_ready-good :
      (rs : List PeerId) (r : Result TssError Bool)
      → process.ready rs excluded ≡ r
      → IsReadySet host excluded sent rs
      → IsGoodTurn (if_ready process marshal_start excluded rs r)
  unfolding if_ready
  if_ready-good rs (err e) h s = tt
  if_ready-good rs (ok false) h s = (s, tt)
  if_ready-good rs (ok true) h s = send_start-good rs (marshal_start (process.start_params rs)) h s

  turn-good :
      (rs : List PeerId) (e : Event)
      → ((p : PeerId) → Elem p (senders (e ∷ [])) → Elem p sent)
      → IsReadySet host excluded sent rs
      → IsGoodTurn (turn process marshal_start excluded rs e)
  unfolding turn
  turn-good rs (process_ended e) h s = tt
  turn-good rs (ready_message p) h s =
      if_ready-good (add_ready excluded rs p) (process.ready (add_ready excluded rs p) excluded)
        refl (add_ready-IsReadySet host p excluded sent rs (h p (ground arith)) s)
  turn-good rs tick h s = (s, (tt, tt))
  turn-good rs done h s = tt

  and_then-good :
      (t : Turn) (next : List PeerId → List Action × Option (Option TssError))
      → IsGoodTurn t
      → ((rs : List PeerId) → IsReadySet host excluded sent rs → All IsJustified (next rs).0)
      → All IsJustified (and_then t next).0
  unfolding and_then
  and_then-good (return r actions) next g h = g
  and_then-good (continue rs actions) next g h =
      All-append IsJustified actions (next rs).0 g.1 (h rs g.0)

  loop-good :
      (rs : List PeerId) (es : List Event)
      → ((p : PeerId) → Elem p (senders es) → Elem p sent)
      → IsReadySet host excluded sent rs
      → All IsJustified (loop process marshal_start excluded rs es).0
  unfolding loop
  loop-good rs [] h s = tt
  loop-good rs (e ∷ es) h s =
      and_then-good (turn process marshal_start excluded rs e)
        (λ rs'. loop process marshal_start excluded rs' es)
        (turn-good rs e (λ p m. h p (senders-head e es p m)) s)
        (λ rs' s'. loop-good rs' es (λ p m. h p (senders-tail e es p m)) s')

-- Whatever messages arrive and in whatever order: each time that the coordinator starts the process,
-- the parameters are those for a set of peers that the process accepts as ready, in which no peer
-- stands twice and each is the host or sent a ready message and is not excluded.
pub initiate-IsJustified :
    (process : TssProcess) (marshal_start : Text → Result TssError Text) (host : PeerId)
    (excluded : List PeerId) (es : List Event)
    → All
        (IsJustified process marshal_start host excluded (senders es))
        (initiate process marshal_start excluded host es).0
unfolding initiate
initiate-IsJustified process marshal_start host excluded es = (
  tt,
  loop-good process marshal_start host excluded (senders es) (host ∷ []) es (λ p m. m)
      (record { distinct = (refl, tt); from_messages = λ p m. inl (ground arith) }),
)
