-- ===== src/Metrics.antt =====
-- metrics/mpc.go: the state behind the metrics of the relayers' sessions, which the coordinator and the
-- signature cache call. ttlcache and the instruments of OpenTelemetry, which record seconds, are
-- parameters; a time is in milliseconds.
use sprinter_signing.Base.{ℕ, ◌-◌, ◌+◌, ◌<◌, ◌≡◌, none, some, List, [], ◌∷◌, ◌++◌, arith, length}
use sprinter_signing.Base.Int.{ℤ, sub_ℕ}
use sprinter_signing.Base.Text.{Text, text_eq_iff}
use sprinter_signing.Peers.{PeerId}
use sprinter_signing.Cache.Defs.{TtlCache, Laws}

-- `SESSION_TTL`
abbrev pub session_ttl : ℕ
session_ttl = 600000

module _ {S : Type 0} (cache : TtlCache ℕ S) where
  -- `MpcMetrics` with the durations that its histogram of sessions has recorded.
  pub record MpcMetrics : Type 0 where
    pub total_relayer_count : ℕ
    pub available_relayer_count : ℤ
    pub session_start_times : S
    pub session_times : List ℕ

  unfoldable pub new_mpc_metrics : MpcMetrics
  new_mpc_metrics = record {
    total_relayer_count = 0;
    available_relayer_count = sub_ℕ 0 0;
    session_start_times = cache.empty;
    session_times = [];
  }

  unfoldable pub track_relayer_status : List PeerId → List PeerId → MpcMetrics → MpcMetrics
  track_relayer_status unavailable all m = record m {
    total_relayer_count = length all;
    available_relayer_count = sub_ℕ (length all) (length unavailable);
  }

  -- `StartProcess` at the time `now`. A session that starts again starts anew.
  unfoldable pub start_process : Text → ℕ → MpcMetrics → MpcMetrics
  start_process session now m = record m {
    session_start_times = cache.set session now m.session_start_times;
  }

  -- `EndProcess`: a session that is not found is only logged; one that is stays.
  unfoldable pub end_process : Text → ℕ → MpcMetrics → MpcMetrics
  end_process session now m =
      let (found, state) = cache.get session m.session_start_times in
      let touched = record m { session_start_times = state } in
      elim found [
        | none ↦ touched
        | some start ↦ record touched { session_times = m.session_times ++ (now - start) ∷ [] }
      ]

  -- A session that ends before its time to live is over has its duration recorded, and as nothing
  -- forgets its start, it is recorded again when it ends again.
  pub end_process-start_process :
      (laws : Laws session_ttl cache) (session : Text) (now t : ℕ) (m : MpcMetrics)
      → t < session_ttl
      → let started = start_process session now m in
        let waited = record started {
          session_start_times = cache.wait t started.session_start_times;
        } in
        let ended = end_process session (now + t) waited in
        (ended.session_times ≡ m.session_times ++ t ∷ [])
        × ((end_process session (now + t) ended).session_times
            ≡ (m.session_times ++ t ∷ []) ++ t ∷ [])
  unfolding start_process end_process
  end_process-start_process laws session now t m b =
      ground (arith, found, laws.get_touched session session waited, duration)
    where
      waited : S
      waited = cache.wait t (cache.set session now m.session_start_times)

      found : (cache.get session waited).0 ≡ some now
      found =
          let stored = cache.set session now m.session_start_times in
          ground (
            arith,
            b,
            laws.get_set session session now m.session_start_times,
            laws.left_set session session now m.session_start_times,
            laws.get_fresh session t stored,
            text_eq_iff session session,
          )

      duration : (now + t) - now ≡ t
      duration = omega arith
