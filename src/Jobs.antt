-- ===== src/Jobs.antt =====
-- jobs/jobs.go and comm/health.go: the rounds in which a relayer looks which of its peers it reaches,
-- over the streams of comm/p2p/libp2p.go and into the metrics of metrics/mpc.go.
use sprinter_signing.Base.{
  ℕ, ◌+◌, ◌≡◌, refl, ap, ◌∙◌, Bool, true, false, not, Option, none, some, List, [], ◌∷◌, ◌++◌, map,
  keep, ◌==◌, arith, length,
}
use sprinter_signing.Base.Int.{pos, sub_ℕ}
use sprinter_signing.Base.Text.{Text}
use sprinter_signing.Peers.{PeerId}
use sprinter_signing.Cache.Defs.{TtlCache}
use sprinter_signing.Metrics.{MpcMetrics, track_relayer_status}
use sprinter_signing.Comm.Transport.Send.{StreamManager, SendError, Network, send_message}
use sprinter_signing.Comm.Transport.Broadcast.{
  Outcome, sent, failed, receiver, send_all, broadcast, send_all_lem,
}

-- The order in which a single goroutine finishes.
abbrev pub alone : List PeerId → List PeerId
alone peers = peers

abbrev with_error :
    Option (PeerId × SendError) → List (PeerId × SendError) → List (PeerId × SendError)
with_error none es = es
with_error (some e) es = e ∷ es

-- `ExecuteCommHealthCheck`: an empty message, `msg` when it is wrapped, to each of the peers in turn.
unfoldable pub execute_comm_health_check :
    Network
    → PeerId
    → Text
    → List PeerId
    → StreamManager
    → StreamManager × List (PeerId × SendError)
unfolding broadcast
execute_comm_health_check net host msg [] sm = (sm, [])
execute_comm_health_check net host msg (p ∷ ps) sm =
    let (sm', e, outcomes) = broadcast net alone host (p ∷ []) msg sm in
    let (sm'', es) = execute_comm_health_check net host msg ps sm' in (sm'', with_error e es)

-- The sends that failed, and the peers that were reached.
abbrev pub failures : List Outcome → List (PeerId × SendError)
failures [] = []
failures (sent p ∷ os) = failures os
failures (failed p e ∷ os) = (p, e) ∷ failures os

abbrev pub reached : List Outcome → List PeerId
reached [] = []
reached (sent p ∷ os) = p ∷ reached os
reached (failed p e ∷ os) = reached os

abbrev Matches : Network → PeerId → Text → List PeerId → StreamManager → Type 0
Matches net host msg peers sm =
    let (sm', e, outcomes) = broadcast net alone host peers msg sm in
    execute_comm_health_check net host msg peers sm ≡ (sm', failures outcomes)

one_more :
    (net : Network) (host p : PeerId) (msg : Text) (ps : List PeerId) (sm : StreamManager)
    → ((sm' : StreamManager) → Matches net host msg ps sm')
    → Matches net host msg (p ∷ ps) sm
unfolding execute_comm_health_check broadcast send_all
one_more net host p msg ps sm later = step (host == p) refl
  where
    sm' : StreamManager
    sm' = (send_message net p msg sm).0

    sent_to :
        (e : Option SendError)
        → (send_message net p msg sm).1 ≡ e
        → (host == p) ≡ false
        → Matches net host msg (p ∷ ps) sm
    sent_to none h ne = ground (arith, h, ne, later sm')
    sent_to (some e) h ne = ground (arith, h, ne, later sm')

    step : (b : Bool) → (host == p) ≡ b → Matches net host msg (p ∷ ps) sm
    step true h = ground (arith, h, later sm)
    step false h = sent_to (send_message net p msg sm).1 refl h

-- The streams and the failures of a health check are those of one broadcast to all its peers whose
-- sends finish in the order of the peers.
pub execute_comm_health_check-broadcast :
    (net : Network) (host : PeerId) (msg : Text) (peers : List PeerId) (sm : StreamManager)
    → let (sm', e, outcomes) = broadcast net alone host peers msg sm in
      execute_comm_health_check net host msg peers sm ≡ (sm', failures outcomes)
unfolding execute_comm_health_check broadcast send_all
execute_comm_health_check-broadcast net host msg [] sm = refl
execute_comm_health_check-broadcast net host msg (p ∷ ps) sm =
    one_more net host p msg ps sm (execute_comm_health_check-broadcast net host msg ps)

length-outcomes :
    (os : List Outcome) → length (reached os) + length (failures os) ≡ length (map receiver os)
length-outcomes [] = omega arith
length-outcomes (sent p ∷ os) = ground (arith, length-outcomes os)
length-outcomes (failed p e ∷ os) = ground (arith, length-outcomes os)

length-keep_both :
    (host : PeerId) (peers : List PeerId)
    → length (keep (λ p. host == p) peers) + length (keep (λ p. not (host == p)) peers)
      ≡ length peers
length-keep_both host [] = omega arith
length-keep_both host (p ∷ ps) = ground (arith, length-keep_both host ps)

length-map_fst : (es : List (PeerId × SendError)) → length (map (λ x. x.0) es) ≡ length es
length-map_fst [] = omega arith
length-map_fst (e ∷ es) = ground (arith, length-map_fst es)

sub_ℕ-sum : (n k a : ℕ) → a + k ≡ n → sub_ℕ n k ≡ pos a
sub_ℕ-sum n k a h = ground arith

-- What one round of the job finds: the peers of the peerstore when it starts and when the check starts,
-- and what the network does.
pub record Round : Type 0 where
  pub all : List PeerId
  pub checked : List PeerId
  pub network : Network

module _ {S : Type 0} (cache : TtlCache ℕ S) (host : PeerId) (msg : Text) where
  -- The body of the loop.
  unfoldable pub health_round :
      Round → StreamManager × MpcMetrics cache → StreamManager × MpcMetrics cache
  unfolding execute_comm_health_check track_relayer_status
  health_round r (sm, m) =
      let (sm', errors) = execute_comm_health_check r.network host msg r.checked sm in
      (sm', track_relayer_status cache (map (λ x. x.0) errors) r.all m)

  -- `StartCommunicationHealthCheckJob` for as many rounds as there have been.
  unfoldable pub start_communication_health_check_job :
      List Round → StreamManager × MpcMetrics cache → StreamManager × MpcMetrics cache
  unfolding health_round
  start_communication_health_check_job [] s = s
  start_communication_health_check_job (r ∷ rs) s =
      start_communication_health_check_job rs (health_round r s)

  job-append :
      (rs : List Round) (r : Round) (s : StreamManager × MpcMetrics cache)
      → start_communication_health_check_job (rs ++ r ∷ []) s
        ≡ health_round r (start_communication_health_check_job rs s)
  unfolding start_communication_health_check_job
  job-append [] r s = refl
  job-append (q ∷ rs) r s = job-append rs r (health_round q s)

  health_round_lem :
      (r : Round) (sm : StreamManager) (m : MpcMetrics cache)
      → r.checked ≡ r.all
      → let after = (health_round r (sm, m)).1 in
        let (sm', e, outcomes) = broadcast r.network alone host r.all msg sm in
        (after.total_relayer_count ≡ length r.all)
        × (after.available_relayer_count ≡ sub_ℕ (length r.all) (length (failures outcomes)))
  unfolding health_round track_relayer_status
  health_round_lem r sm m h = ground (
    arith,
    h,
    execute_comm_health_check-broadcast r.network host msg r.all sm,
    length-map_fst (failures (broadcast r.network alone host r.all msg sm).2),
  )

  counted :
      (net : Network) (peers : List PeerId) (sm : StreamManager)
      → let (sm', e, outcomes) = broadcast net alone host peers msg sm in
        length (keep (λ p. host == p) peers)
          + length (reached outcomes)
          + length (failures outcomes)
        ≡ length peers
  unfolding broadcast
  counted net peers sm =
      let targets = keep (λ p. not (host == p)) peers in
      let (sm', e, outcomes) = send_all net msg targets sm in
      ground (
        arith,
        length-keep_both host peers,
        length-outcomes outcomes,
        ap length (send_all_lem net msg targets sm).0,
      )

  -- After any rounds and one more in which the peerstore stays as it is, the gauge of all relayers shows
  -- the number of the peers, and the gauge of those available the number of the entries for the relayer
  -- itself and of the others that an empty message reached, so at most as many.
  pub start_communication_health_check_job_lem :
      (rs : List Round) (r : Round) (s : StreamManager × MpcMetrics cache)
      → r.checked ≡ r.all
      → let before = (start_communication_health_check_job rs s).0 in
        let after = (start_communication_health_check_job (rs ++ r ∷ []) s).1 in
        let (sm', e, outcomes) = broadcast r.network alone host r.all msg before in
        let available = length (keep (λ p. host == p) r.all) + length (reached outcomes) in
        (after.total_relayer_count ≡ length r.all)
        × (after.available_relayer_count ≡ pos available)
        × (available + length (failures outcomes) ≡ length r.all)
  unfolding start_communication_health_check_job health_round track_relayer_status
  start_communication_health_check_job_lem rs r s h =
      let (sm, m) = start_communication_health_check_job rs s in
      let (sm', e, outcomes) = broadcast r.network alone host r.all msg sm in
      let (total, left) = health_round_lem r sm m h in
      let sum = counted r.network r.all sm in
      (
        ap (λ x. x.1.total_relayer_count) (job-append rs r s) ∙ total,
        ap (λ x. x.1.available_relayer_count) (job-append rs r s)
            ∙ left
            ∙ sub_ℕ-sum (length r.all) (length (failures outcomes))
                (length (keep (λ p. host == p) r.all) + length (reached outcomes)) sum,
        sum,
      )
