-- ===== src/Tss/Signing/Runs.antt =====
-- That a signing runs once and only with its subset, the layout of the signature that it yields, and
-- when the monitor gives up.
use sprinter_signing.Base.{
  ℕ, zero, suc, ◌+◌, ◌-◌, ◌*◌, ◌%◌, ◌≤◌, ◌≡◌, ◌≢◌, ◌↔◌, refl, ap, ◌∙◌, Bool, true, false, some,
  List, [], ◌∷◌, ◌++◌, arith, ok, err, contains, length, length-append, length-replicate, replicate,
  Bool-cases, inl, inr, if◌then◌else◌,
}
use sprinter_signing.Base.Text.{Text, text_eq_iff}
use sprinter_signing.Peers.{PeerId, is_participant}
use sprinter_signing.Tss.Process.{process_started, subset_error, failure}
use sprinter_signing.Tss.Signing.Defs.{
  Signing, RunEnv, SignatureData, result, broadcast, run, left_pad_bytes, add_to_last,
  signature_bytes, is_stuck, process_end_message, distribute_signature, monitor_signing,
}

-- However a run of a signing ends, a later run of it changes nothing and says that it has started.
pub run_again :
    (env env' : RunEnv) (s : Signing) (coordinator coordinator' : Bool) (params params' : Text)
    → let s' = (run env s coordinator params).0 in
      run env' s' coordinator' params' ≡ (s', err process_started)
unfolding run
run_again env env' s coordinator coordinator' params params' = ground arith

-- A run succeeds only as the first run of its process, with parameters that name the relayer itself,
-- and leaves the peers of the subset as those that it talks to. A relayer that the subset does not
-- name has the subset error, and is not subscribed to the session's messages.
pub run_subset_only :
    (env : RunEnv) (s : Signing) (coordinator : Bool) (params : Text) (subset : List PeerId)
    → env.decode params ≡ some subset
    → let (s', r) = run env s coordinator params in
      (r ≡ ok tt
        → (s.started ≡ false)
          × (contains subset s.host_id ≡ true)
          × (s'.peers ≡ subset)
          × (s'.subscribed ≡ true))
      × (s.started ≡ false
          → contains subset s.host_id ≡ false
          → (r ≡ err (subset_error s.host_id)) × (s'.subscribed ≡ s.subscribed))
unfolding run is_participant
run_subset_only env s coordinator params subset d = ground arith

-- The number that bytes stand for, the highest first.
abbrev pub value_from : ℕ → List ℕ → ℕ
value_from n [] = n
value_from n (b ∷ bs) = value_from (n * 256 + b) bs

value_from-zeros : (k : ℕ) (bs : List ℕ) → value_from 0 (replicate k 0 ++ bs) ≡ value_from 0 bs
value_from-zeros zero bs = refl
value_from-zeros (suc k) bs = value_from-zeros k bs

add_to_last-snoc :
    (bs : List ℕ) (b n : ℕ) → add_to_last (bs ++ b ∷ []) n ≡ bs ++ ((b + n) % 256) ∷ []
unfolding add_to_last
add_to_last-snoc [] b n = refl
add_to_last-snoc (c ∷ []) b n = refl
add_to_last-snoc (c ∷ d ∷ bs) b n = ap (◌∷◌ c) (add_to_last-snoc (d ∷ bs) b n)

left_pad_bytes_lem :
    (bs : List ℕ)
    → length bs ≤ 32
    → (length (left_pad_bytes bs 32) ≡ 32) × (value_from 0 (left_pad_bytes bs 32) ≡ value_from 0 bs)
unfolding left_pad_bytes
left_pad_bytes_lem bs h = (
  omega (
    arith,
    length-append (replicate (32 - length bs) 0) bs,
    length-replicate {A = ℕ} (32 - length bs) 0,
  ),
  value_from-zeros (32 - length bs) bs,
)

-- For R and S of at most 32 bytes and a recovery byte v, the signature is 32 bytes with the number R,
-- 32 bytes with the number S, and the byte v + 27. The result goes to the result channel under the
-- session's ID, and a relayer that is not the coordinator sends it to the others as well.
pub process_end_message-layout :
    (s : Signing) (sig : SignatureData) (v : ℕ)
    → length sig.r ≤ 32
    → length sig.s ≤ 32
    → sig.recovery ≡ v ∷ []
    → (r32 s32 : List ℕ) × (length r32 ≡ 32)
      × (length s32 ≡ 32)
      × (value_from 0 r32 ≡ value_from 0 sig.r)
      × (value_from 0 s32 ≡ value_from 0 sig.s)
      × (let es = r32 ++ s32 ++ ((v + 27) % 256) ∷ [] in
          (process_end_message s (some sig)).1
          ≡ result es s.session_id ∷ (if s.coordinator then [] else broadcast es s.session_id ∷ []))
unfolding process_end_message signature_bytes distribute_signature
process_end_message-layout s sig v hr hs hv =
    let (lr, vr) = left_pad_bytes_lem sig.r hr in
    let (ls, vs) = left_pad_bytes_lem sig.s hs in
    let r32 = left_pad_bytes sig.r 32 in
    let s32 = left_pad_bytes sig.s 32 in
    (
      r32,
      s32,
      lr,
      ls,
      vr,
      vs,
      ap
          (λ es.
            result es s.session_id ∷ (if s.coordinator then [] else broadcast es s.session_id ∷ []))
          (ap (λ t. add_to_last (r32 ++ s32 ++ t) 27) hv ∙ add_to_last-snoc (r32 ++ s32) v 27),
    )

-- The same parties are missing at two ticks in a row.
pub data IsStuck : List (List PeerId) → Type 0 where
  here : {v w : List PeerId} {rest : List (List PeerId)} → v ≢ [] → w ≡ v → IsStuck (v ∷ w ∷ rest)
  later : {v : List PeerId} {rest : List (List PeerId)} → IsStuck rest → IsStuck (v ∷ rest)

is_stuck_iff : (v w : List PeerId) → (is_stuck v w ≡ true) ↔ ((v ≢ []) × (w ≡ v))
unfolding is_stuck
is_stuck_iff [] w = (λ e. cc, λ p. absurd (p.0 refl))
is_stuck_iff (x ∷ v) w = (
  λ e. (λ f. cc, (text_eq_iff w (x ∷ v)).0 (ground arith)),
  λ p. ground (arith, text_eq_iff w (x ∷ v)),
)

monitor_signing-fails :
    (waiting : List PeerId) (ticks : List (List PeerId))
    → monitor_signing waiting ticks ≡ err (failure 1)
    → IsStuck (waiting ∷ ticks)
unfolding monitor_signing
monitor_signing-fails waiting [] h = cc
monitor_signing-fails waiting (now ∷ rest) h = elim (Bool-cases (is_stuck waiting now)) [
  | inl e ↦ let (n, q) = (is_stuck_iff waiting now).0 e in here n q
  | inr e ↦ later (monitor_signing-fails now rest (ground (arith, e)))
]

monitor_signing_stuck :
    (waiting : List PeerId) (ticks : List (List PeerId))
    → IsStuck (waiting ∷ ticks)
    → monitor_signing waiting ticks ≡ err (failure 1)
unfolding monitor_signing
monitor_signing_stuck waiting [] (later t) = elim t [ ]
monitor_signing_stuck waiting (now ∷ rest) (here n q) = rw ((is_stuck_iff waiting now).1 (n, q))
monitor_signing_stuck waiting (now ∷ rest) (later t) =
    ground (arith, monitor_signing_stuck now rest t)

-- The monitor gives up on a signing exactly when the same parties, and at least one, are missing at
-- two ticks in a row; until then it waits for the end of the context.
pub monitor_signing_iff :
    (waiting : List PeerId) (ticks : List (List PeerId))
    → (monitor_signing waiting ticks ≡ err (failure 1)) ↔ IsStuck (waiting ∷ ticks)
monitor_signing_iff waiting ticks =
    (monitor_signing-fails waiting ticks, monitor_signing_stuck waiting ticks)
