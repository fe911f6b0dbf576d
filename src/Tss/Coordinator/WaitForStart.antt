-- ===== src/Tss/Coordinator/WaitForStart.antt =====
-- `waitForStart` and `watchExecution` of tss/coordinator.go: a participant's side, and the watch over a
-- process on both sides.
use sprinter_signing.Base.{
  ◌≡◌, refl, ap, Bool, true, false, not, ◌&&◌, Option, none, some, List, [], ◌∷◌, ◌++◌, arith,
  if◌then◌else◌, ◌==◌, Bool-cases, ==_iff, ◌⊎◌, ◌↔◌, inl, inr, Result, ok, err,
}
use sprinter_signing.Base.Text.{Text}
use sprinter_signing.Peers.{PeerId}
use sprinter_signing.Tss.Process.{TssError, fail_message_received}

pub data Event : Type 0 where
  initiate_message : PeerId → Event
  start_message : PeerId → Text → Event
  process_ended : Option TssError → Event
  done : Event

pub data Action : Type 0 where
  send_ready : PeerId → Action
  start_process : Text → Action

pub data Turn : Type 0 where
  continue : List Action → Turn
  return : Option TssError → Turn

-- `coordinator != "" && from != coordinator`: 0 is the empty ID.
unfoldable pub is_other : PeerId → PeerId → Bool
is_other coordinator from = not (coordinator == 0) && not (from == coordinator)

and_then : Turn → List Action × Option (Option TssError) → List Action × Option (Option TssError)
and_then (return r) later = ([], some r)
and_then (continue actions) later = (actions ++ later.0, later.1)

-- `message.UnmarshalStartMessage` is the argument `unmarshal_start`.
module _ (unmarshal_start : Text → Result TssError Text) (coordinator : PeerId) where
  start : Result TssError Text → Turn
  start (err e) = return (some e)
  start (ok params) = continue (start_process params ∷ [])

  unfoldable pub turn : Event → Turn
  unfolding start is_other
  turn (initiate_message from) =
      if is_other coordinator from then continue [] else continue (send_ready from ∷ [])
  turn (start_message from payload) =
      if is_other coordinator from then continue [] else start (unmarshal_start payload)
  turn (process_ended e) = return e
  turn done = return none

  -- The actions of the loop, and what it returns if it returns at one of the events.
  unfoldable pub wait_for_start : List Event → List Action × Option (Option TssError)
  unfolding turn and_then
  wait_for_start [] = ([], none)
  wait_for_start (e ∷ es) = and_then (turn e) (wait_for_start es)

  -- The events without the messages of peers that are not the coordinator.
  abbrev pub without_others : List Event → List Event
  without_others [] = []
  without_others (initiate_message p ∷ es) =
      if is_other coordinator p then without_others es else initiate_message p ∷ without_others es
  without_others (start_message p t ∷ es) =
      if is_other coordinator p then without_others es else start_message p t ∷ without_others es
  without_others (process_ended e ∷ es) = process_ended e ∷ without_others es
  without_others (done ∷ es) = done ∷ without_others es

  -- A participant that knows its coordinator does and returns the same whether or not any other peer
  -- sends it initiate and start messages in between.
  pub wait_for_start-without_others :
      (es : List Event) → wait_for_start es ≡ wait_for_start (without_others es)
  unfolding wait_for_start turn start and_then
  wait_for_start-without_others [] = refl
  wait_for_start-without_others (initiate_message p ∷ es) =
      ground (arith, wait_for_start-without_others es)
  wait_for_start-without_others (start_message p t ∷ es) =
      ground (arith, wait_for_start-without_others es)
  wait_for_start-without_others (process_ended r ∷ es) =
      ap (and_then (turn (process_ended r))) (wait_for_start-without_others es)
  wait_for_start-without_others (done ∷ es) =
      ap (and_then (turn done)) (wait_for_start-without_others es)

-- What the select of `watchExecution` receives: the process's timeout, the end of the context, or a
-- fail message.
pub data WatchEvent : Type 0 where
  timed_out cancelled : WatchEvent
  fail_message : PeerId → WatchEvent

-- What it returns, and whether it stopped the process and cancelled the context itself.
unfoldable pub watch_execution : PeerId → List WatchEvent → Option (Option TssError × Bool)
watch_execution coordinator [] = none
watch_execution coordinator (timed_out ∷ es) = some (none, true)
watch_execution coordinator (cancelled ∷ es) = some (none, false)
watch_execution coordinator (fail_message from ∷ es) =
    let rest = watch_execution coordinator es in
    if from == coordinator then some (some fail_message_received, false) else rest

-- A fail message of the coordinator comes before the timeout and before the end of the context.
abbrev pub FailsFirst : PeerId → List WatchEvent → Type 0
FailsFirst coordinator [] = ⊥
FailsFirst coordinator (timed_out ∷ es) = ⊥
FailsFirst coordinator (cancelled ∷ es) = ⊥
FailsFirst coordinator (fail_message from ∷ es) = (from ≡ coordinator) ⊎ FailsFirst coordinator es

-- The watch ends with the fail error exactly when a fail message of the coordinator comes before the
-- timeout and before the end of the context.
pub watch_execution-fails_iff :
    (coordinator : PeerId) (es : List WatchEvent)
    → (watch_execution coordinator es ≡ some (some fail_message_received, false))
      ↔ FailsFirst coordinator es
unfolding watch_execution
watch_execution-fails_iff coordinator [] = (λ e. cc, λ b. absurd b)
watch_execution-fails_iff coordinator (timed_out ∷ es) = (λ e. cc, λ b. absurd b)
watch_execution-fails_iff coordinator (cancelled ∷ es) = (λ e. cc, λ b. absurd b)
watch_execution-fails_iff coordinator (fail_message from ∷ es) =
    let (there, back) = watch_execution-fails_iff coordinator es in
    (
      λ e. elim (Bool-cases (from == coordinator)) [
        | inl h ↦ inl ((==_iff from coordinator).0 h)
        | inr h ↦ inr (there (ground (arith, h)))
      ],
      λ f. elim f [ inl h ↦ rw ((==_iff from coordinator).1 h) | inr g ↦ ground (arith, back g) ],
    )
