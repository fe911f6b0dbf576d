-- ===== src/Tss/Coordinator/Concurrent.antt =====
-- Several calls of `Execute` at once (tss/coordinator.go): the sections under the lock interleave in any
-- order, and a session has one running process at most.
use sprinter_signing.Base.{
  ℕ, suc, ◌+◌, ◌≡◌, refl, ap, true, false, List, [], ◌∷◌, ◌++◌, arith, if◌then◌else◌, ok, err,
}
use sprinter_signing.Base.Text.{Text, text_key, text_eq, text_eq_iff}
use sprinter_signing.Tss.Process.{TssError}
use sprinter_signing.Tss.Coordinator.Execute.{
  Pending, is_pending, is_pending-insert, begin_process, end_process,
}

-- The shared map, and the sessions whose calls are past the first section and before the last.
pub record System : Type 0 where
  pub pending : Pending
  pub running : List Text

pub data Step (s : System) : System → Type 0 where
  begin :
      (sid : Text) (pending : Pending)
      → begin_process sid s.pending ≡ ok pending
      → Step s (record { pending = pending; running = sid ∷ s.running })
  refuse : (sid : Text) (e : TssError) → begin_process sid s.pending ≡ err e → Step s s
  finish :
      (sid : Text) (before behind : List Text)
      → s.running ≡ before ++ sid ∷ behind
      → Step s (record { pending = end_process sid s.pending; running = before ++ behind })

pub data Reach (s : System) : System → Type 0 where
  here : Reach s s
  next : {t u : System} → Reach s t → Step t u → Reach s u

abbrev pub idle : System
idle = record { pending = []; running = [] }

abbrev pub count_running : Text → List Text → ℕ
count_running sid [] = 0
count_running sid (t ∷ ts) =
    if text_eq t sid then suc (count_running sid ts) else count_running sid ts

count_running-append :
    (sid : Text) (xs ys : List Text)
    → count_running sid (xs ++ ys) ≡ count_running sid xs + count_running sid ys
count_running-append sid [] ys = omega arith
count_running-append sid (x ∷ xs) ys = ground (arith, count_running-append sid xs ys)

-- A session has as many running calls as its entry says: one or none.
abbrev pub IsExclusive : System → Type 0
IsExclusive s =
    (sid : Text) → count_running sid s.running ≡ (if is_pending s.pending sid then 1 else 0)

Step-IsExclusive : {s t : System} → Step s t → IsExclusive s → IsExclusive t
unfolding begin_process end_process
Step-IsExclusive {s} (begin sid pending h) x sid' =
    ground (arith, x sid', x sid, is_pending-insert sid sid' true s.pending, text_eq_iff sid sid')
Step-IsExclusive {s} (refuse sid e h) x sid' = x sid'
Step-IsExclusive {s} (finish sid before behind h) x sid' = ground (
  arith,
  x sid',
  x sid,
  ap (count_running sid') h,
  ap (count_running sid) h,
  count_running-append sid' before (sid ∷ behind),
  count_running-append sid before (sid ∷ behind),
  count_running-append sid' before behind,
  is_pending-insert sid sid' false s.pending,
  text_eq_iff sid sid',
)

-- From a coordinator with nothing pending, whatever calls begin, are refused and finish, in whatever
-- order: a session has one running process if its entry in the map is true, and none if it is not.
pub Reach-IsExclusive : {s : System} → Reach idle s → IsExclusive s
Reach-IsExclusive here = λ sid. refl
Reach-IsExclusive (next r st) = Step-IsExclusive st (Reach-IsExclusive r)
