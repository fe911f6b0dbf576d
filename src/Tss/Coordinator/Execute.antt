-- ===== src/Tss/Coordinator/Execute.antt =====
-- `Execute` and `start` of tss/coordinator.go: one run of a process, and the bookkeeping of pending
-- sessions when several calls of `Execute` run at once.
use sprinter_signing.Base.{
  ℕ, ◌≡◌, Bool, true, false, Option, none, some, List, [], ◌∷◌, map, arith, if◌then◌else◌, ◌==◌,
  Result, ok, err,
}
use sprinter_signing.Base.Dict.{Dict, lookup, insert, lookup-insert}
use sprinter_signing.Base.Text.{Text, text_key, text_eq}
use sprinter_signing.Peers.{PeerId, coordinator}
use sprinter_signing.Tss.Process.{TssError, TssProcess, already_pending, subset_error}

-- `pendingProcesses`
abbrev pub Pending : Type 0
Pending = Dict Text Bool

abbrev pub is_pending : Pending → Text → Bool
is_pending pending sid = elim (lookup sid pending) [ some b ↦ b | none ↦ false ]

-- The section under the lock at the start, and the one in the deferred function.
unfoldable pub begin_process : Text → Pending → Result TssError Pending
begin_process sid pending =
    if is_pending pending sid then err already_pending else ok (insert sid true pending)

unfoldable pub end_process : Text → Pending → Pending
end_process sid pending = insert sid false pending

-- The `SubsetError` is no error of the caller.
unfoldable pub execute_result : Option TssError → Option TssError
execute_result (some (subset_error p)) = none
execute_result e = e

pub data Role : Type 0 where
  initiator waiter : Role

-- `start`
unfoldable pub role : PeerId → PeerId → Role
role host coord = if coord == host then initiator else waiter

pub is_pending-insert :
    (sid sid' : Text) (b : Bool) (pending : Pending)
    → is_pending (insert sid b pending) sid'
      ≡ (if text_eq sid sid' then b else is_pending pending sid')
is_pending-insert sid sid' b pending = ground (arith, lookup-insert sid sid' b pending)

module _ (id_bytes : PeerId → List ℕ) (keccak256 : List ℕ → List ℕ) where
  -- The coordinator that was given, or the elected one where none was.
  unfoldable pub choose_coordinator : TssProcess → PeerId → PeerId
  choose_coordinator process given =
      if given == 0
      then coordinator id_bytes keccak256 process.session_id process.valid_coordinators
      else given

  -- `Execute`: `pool` is what waiting for the two goroutines returns, for the role and coordinator. The
  -- result has the pending sessions after the call, the error, and the sessions of the processes that
  -- were stopped.
  unfoldable pub execute :
      (Role → PeerId → Option TssError)
      → PeerId
      → TssProcess
      → List TssProcess
      → PeerId
      → Pending
      → Pending × Option TssError × List Text
  unfolding begin_process end_process execute_result role choose_coordinator
  execute pool host process others given pending = elim (begin_process process.session_id pending) [
    | err e ↦ (pending, some e, [])
    | ok pending' ↦
        let coord = choose_coordinator process given in
        (
          end_process process.session_id pending',
          execute_result (pool (role host coord) coord),
          process.session_id ∷ map (λ p. p.session_id) others,
        )
  ]
