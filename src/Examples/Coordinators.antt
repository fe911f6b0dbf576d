-- ===== src/Examples/Coordinators.antt =====
-- Coordination of the signing of Examples/Processes.antt's kind, with threshold 1 among 5, 7 and 9.
use sprinter_signing.Base.{
  arith, ℕ, ◌≡◌, refl, true, false, Option, some, List, [], ◌∷◌, All, Result, ok,
}
use sprinter_signing.Base.Text.{Text, text_key}
use sprinter_signing.Peers.{PeerId}
use sprinter_signing.Tss.Process.{TssError, TssProcess, failure}
use sprinter_signing.Tss.Signing.{Signing}
use sprinter_signing.Tss.Quorum.{signing_process, IsQuorum, initiate-IsQuorum}
use sprinter_signing.Tss.Coordinator.Initiate.{Event, ready_message, tick, initiate}
use sprinter_signing.Tss.Coordinator.Initiate.Quorum.{senders}
use sprinter_signing.Tss.Progress.{has_start, messages_of, initiate-has_start}
use sprinter_signing.Tss.Coordinator.WaitForStart
use sprinter_signing.Tss.Coordinator.WaitForStart.{
  wait_for_start, without_others, wait_for_start-without_others, watch_execution, WatchEvent,
  fail_message, timed_out, FailsFirst, watch_execution-fails_iff,
}
use sprinter_signing.Tss.Coordinator.Execute.{Pending, begin_process, Role}
use sprinter_signing.Tss.Coordinator.Concurrent.{
  System, begin, Reach, here, next, idle, IsExclusive, Reach-IsExclusive,
}

abbrev eight_bytes : PeerId → List ℕ
eight_bytes p = 0 ∷ 0 ∷ 0 ∷ 0 ∷ 0 ∷ 0 ∷ 0 ∷ p ∷ []

abbrev no_hash : List ℕ → List ℕ
no_hash bytes = bytes

abbrev as_text : List PeerId → Text
as_text peers = peers

abbrev signing : Signing
signing = record {
  host_id = 5;
  session_id = 1 ∷ [];
  started = false;
  peers = 5 ∷ 7 ∷ 9 ∷ [];
  coordinator = false;
  key = record { key = 1; threshold = 1; peers = 5 ∷ 7 ∷ 9 ∷ [] };
  msg = 3;
  subscribed = false;
  cancelled = false;
}

abbrev process : TssProcess
process = signing_process eight_bytes no_hash as_text signing

abbrev marshal_start : Text → Result TssError Text
marshal_start t = ok t

abbrev messages : List Event
messages = tick ∷ ready_message 8 ∷ ready_message 9 ∷ []

initiate-IsQuorum_example :
    All
      (IsQuorum eight_bytes no_hash as_text signing 5 [] (senders messages))
      (initiate process marshal_start [] 5 messages).0
initiate-IsQuorum_example =
    initiate-IsQuorum eight_bytes no_hash as_text signing marshal_start 5 [] messages

initiate-has_start_example :
    has_start (initiate process marshal_start [] 5 (messages_of (9 ∷ []))).0 ≡ true
initiate-has_start_example =
    initiate-has_start eight_bytes no_hash as_text signing marshal_start [] as_text 5 (9 ∷ [])
      (λ t. refl) (omega arith) refl (refl, tt) ((refl, refl, refl), tt) (omega arith)

abbrev start_from_other : List WaitForStart.Event
start_from_other =
    WaitForStart.start_message 8 (1 ∷ []) ∷ WaitForStart.start_message 5 (2 ∷ []) ∷ []

abbrev pool : Role → PeerId → Option TssError
pool r p = some (failure 3)

abbrev other_pending : Pending
other_pending = (2 ∷ [], true) ∷ []

abbrev one_running : System
one_running = record { pending = (1 ∷ [], true) ∷ []; running = (1 ∷ []) ∷ [] }

abbrev one_call : Reach idle one_running
unfolding begin_process
one_call = next here (begin (1 ∷ []) ((1 ∷ [], true) ∷ []) refl)

Reach-IsExclusive_example : IsExclusive one_running
Reach-IsExclusive_example = Reach-IsExclusive one_call
