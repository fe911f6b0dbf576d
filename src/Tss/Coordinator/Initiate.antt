-- ===== src/Tss/Coordinator/Initiate.antt =====
-- `initiate` and `startProcess` of tss/coordinator.go: the coordinator's side.
pub mod Quorum
use sprinter_signing.Base.{
  ℕ, ◌≡◌, ◌≢◌, refl, ap, ◌⊎◌, inl, inr, Bool, true, false, not, ◌&&◌, ◌||◌, Option, none, some,
  List, [], ◌∷◌, ◌++◌, arith, if◌then◌else◌, ◌==◌, ==_iff, Result, ok, err, contains,
  contains-append, Distinct, Elem, All, Result-cases,
}
use sprinter_signing.Base.Text.{Text}
use sprinter_signing.Peers.{PeerId}
use sprinter_signing.Tss.Process.{TssError, TssProcess, process_started}

-- What the select of `initiate` receives: an error of the process that was started (`none` is nil),
-- a ready message, a tick of the initiate period, the end of the context.
pub data Event : Type 0 where
  process_ended : Option TssError → Event
  ready_message : PeerId → Event
  tick done : Event

pub data Action : Type 0 where
  broadcast_initiate stop_ticker : Action
  broadcast_start : Text → Action
  start_process : Text → Action

-- A turn of the loop: it goes on with the ready peers, or the function returns.
pub data Turn : Type 0 where
  continue : List PeerId → List Action → Turn
  return : Option TssError → List Action → Turn

-- `startProcess`, when the run of the process has ended: a second start is silent, and any other
-- result is what the errors' channel is offered (`some none` is nil).
unfoldable pub process_result : Result TssError (Unit {0}) → Option (Option TssError)
process_result (ok u) = some none
process_result (err process_started) = none
process_result (err e) = some (some e)

-- A peer counts once, and not if it is excluded.
unfoldable pub add_ready : List PeerId → List PeerId → PeerId → List PeerId
add_ready excluded ready_peers from =
    if not (contains excluded from) && not (contains ready_peers from)
    then ready_peers ++ from ∷ []
    else ready_peers

-- What a turn makes of the rest of the loop.
and_then :
    Turn
    → (List PeerId → List Action × Option (Option TssError))
    → List Action × Option (Option TssError)
and_then (return r actions) next = (actions, some r)
and_then (continue rs actions) next = (actions ++ (next rs).0, (next rs).1)

-- `message.MarshalStartMessage` is the argument `marshal_start`.
module _ (process : TssProcess) (marshal_start : Text → Result TssError Text)
    (excluded : List PeerId) where
  send_start : List PeerId → Text → Result TssError Text → Turn
  send_start ready_peers params (err e) = return (some e) []
  send_start ready_peers params (ok msg) =
      continue ready_peers (broadcast_start msg ∷ stop_ticker ∷ start_process params ∷ [])

  if_ready : List PeerId → Result TssError Bool → Turn
  unfolding send_start
  if_ready ready_peers (err e) = return (some e) []
  if_ready ready_peers (ok false) = continue ready_peers []
  if_ready ready_peers (ok true) =
      let params = process.start_params ready_peers in
      send_start ready_peers params (marshal_start params)

  unfoldable pub turn : List PeerId → Event → Turn
  unfolding if_ready add_ready
  turn ready_peers (process_ended e) = return e []
  turn ready_peers (ready_message from) =
      let ready_peers' = add_ready excluded ready_peers from in
      if_ready ready_peers' (process.ready ready_peers' excluded)
  turn ready_peers tick = continue ready_peers (broadcast_initiate ∷ [])
  turn ready_peers done = return none []

  -- The actions of the loop, and what it returns if it returns at one of the events.
  unfoldable pub loop : List PeerId → List Event → List Action × Option (Option TssError)
  unfolding turn and_then
  loop ready_peers [] = ([], none)
  loop ready_peers (e ∷ es) = and_then (turn ready_peers e) (λ rs. loop rs es)

  -- `initiate`: the host is ready from the start, and the initiate message goes out at once.
  unfoldable pub initiate : PeerId → List Event → List Action × Option (Option TssError)
  unfolding loop
  initiate host es =
      let (actions, returned) = loop (host ∷ []) es in (broadcast_initiate ∷ actions, returned)
