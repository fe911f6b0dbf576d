-- ===== src/Config/Watcher.antt =====
-- config/watcher.go: the relayer ends, to be started again, when the solver's configuration changes.
-- Fetching it, encoding/json and SHA-256 are parameters.
use sprinter_signing.Base.{
  ◌≡◌, ◌≢◌, ◌↔◌, refl, Bool, true, false, not, ◌||◌, Option, none, some, List, [], ◌∷◌, arith,
  Bool-cases, inl, inr, Result, ok, err, ◌>>=◌, or_fail,
}
use sprinter_signing.Base.Text.{Text, text_eq, text_eq_iff}

pub data WatchError : Type 0 where
  not_fetched not_marshaled : WatchError

-- A turn of the watcher: the ticker's, with what is fetched then, or the end of the context.
pub data Turn (C : Type 0) : Type 0 where
  tick : Option C → Turn C
  cancelled : Turn C

module _ {C : Type 0} (marshal : C → Option Text) (sha256_hex : Text → Text) where
  unfoldable pub calculate_config_hash : C → Result WatchError Text
  calculate_config_hash config = do
    json_bytes ← or_fail (marshal config) not_marshaled
    ok (sha256_hex json_bytes)

  unfoldable pub has_config_changed : Text → Option C → Result WatchError Bool
  unfolding calculate_config_hash
  has_config_changed initial_hash fetched = do
    config ← or_fail fetched not_fetched
    new_hash ← calculate_config_hash config
    ok (not (text_eq initial_hash new_hash))

  -- An error is logged, and the next tick tries again.
  abbrev pub signals : Result WatchError Bool → Bool
  signals (ok changed) = changed
  signals (err e) = false

  -- The loop: whether the first signal comes. The channel holds it until `Run` reads it.
  unfoldable pub watch : Text → List (Turn C) → Bool
  unfolding has_config_changed
  watch hash [] = false
  watch hash (cancelled ∷ turns) = false
  watch hash (tick fetched ∷ turns) = signals (has_config_changed hash fetched) || watch hash turns

  -- `StartConfigWatcher`: a configuration that cannot be encoded is an error at once.
  unfoldable pub start_config_watcher : C → List (Turn C) → Result WatchError Bool
  unfolding calculate_config_hash watch
  start_config_watcher config turns = do hash ← calculate_config_hash config; ok (watch hash turns)

  -- Before the end of the context, some tick fetches a configuration that is encoded in another way.
  pub data SeesChange (encoded : Text) : List (Turn C) → Type 0 where
    now :
        {c : C} {other : Text} {turns : List (Turn C)}
        → marshal c ≡ some other
        → other ≢ encoded
        → SeesChange encoded (tick (some c) ∷ turns)
    next :
        {fetched : Option C} {turns : List (Turn C)}
        → SeesChange encoded turns
        → SeesChange encoded (tick fetched ∷ turns)

  module _ (injective : (s t : Text) → sha256_hex s ≡ sha256_hex t → s ≡ t) where
    watch-SeesChange :
        (encoded : Text) (turns : List (Turn C))
        → watch (sha256_hex encoded) turns ≡ true
        → SeesChange encoded turns
    unfolding watch
    watch-SeesChange encoded [] h = absurd (ground (arith, h))
    watch-SeesChange encoded (cancelled ∷ turns) h = absurd (ground (arith, h))
    watch-SeesChange encoded (tick none ∷ turns) h =
        next (watch-SeesChange encoded turns (ground (arith, h)))
    watch-SeesChange encoded (tick (some c) ∷ turns) h =
        step (marshal c) refl (watch-SeesChange encoded turns)
      where
        step :
            (m : Option Text)
            → marshal c ≡ m
            → (watch (sha256_hex encoded) turns ≡ true → SeesChange encoded turns)
            → SeesChange encoded (tick (some c) ∷ turns)
        step none e rest = next (rest (ground (arith, h, e)))
        step (some other) e rest =
            elim (Bool-cases (text_eq (sha256_hex encoded) (sha256_hex other))) [
              | inl same ↦ next (rest (ground (arith, h, e, same)))
              | inr differs ↦ now e (λ q.
                  ground (arith, differs, q, text_eq_iff (sha256_hex encoded) (sha256_hex other)))
            ]

    SeesChange-watch :
        (encoded : Text) (turns : List (Turn C))
        → SeesChange encoded turns
        → watch (sha256_hex encoded) turns ≡ true
    unfolding watch
    SeesChange-watch encoded [] s = elim s [ ]
    SeesChange-watch encoded (cancelled ∷ turns) s = elim s [ ]
    SeesChange-watch encoded (tick (some c) ∷ turns) (now {other = other} e d) =
        ground (
          arith,
          e,
          d,
          injective encoded other,
          text_eq_iff (sha256_hex encoded) (sha256_hex other),
        )
    SeesChange-watch encoded (tick fetched ∷ turns) (next s) =
        ground (arith, SeesChange-watch encoded turns s)

    -- For a configuration that can be encoded, and if no two encodings have the same hash, the relayer is told to end exactly if some tick before the
    -- end of the context fetches a configuration that is encoded in another way; ticks on which nothing is
    -- fetched, or the same, do not count, whatever their number.
    pub start_config_watcher_iff :
        (config : C) (encoded : Text) (turns : List (Turn C))
        → marshal config ≡ some encoded
        → (start_config_watcher config turns ≡ ok true) ↔ SeesChange encoded turns
    unfolding start_config_watcher
    start_config_watcher_iff config encoded turns m = (
      λ e. watch-SeesChange encoded turns (ground (arith, e, m)),
      λ s. ground (arith, m, SeesChange-watch encoded turns s),
    )
