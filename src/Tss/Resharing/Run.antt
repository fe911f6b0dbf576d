-- ===== src/Tss/Resharing/Run.antt =====
-- `Run` of a resharing process, and that it does not panic where a key share is held.
use sprinter_signing.Base.{
  ℕ, Bool, true, false, Option, none, some, List, [], ◌∷◌, if◌then◌else◌, Result, ok, err,
}
use sprinter_signing.Base.Int.{ℤ}
use sprinter_signing.Base.Dict.{lookup, nat_key}
use sprinter_signing.Base.Text.{Text}
use sprinter_signing.Peers.{PeerId}
use sprinter_signing.Tss.Process.{TssError, process_started, failure, Keyshare}
use sprinter_signing.Tss.Parties.{Party, parties_from_peers, populate_party_store}
use sprinter_signing.Tss.Resharing.Defs.{
  StartParams, Resharing, ReshareError, threshold_too_small, threshold_bigger_than_subset,
  invalid_peers_subset, sort_peers, validate_start_params, sort_parties,
}

-- What the tss library and encoding/json do in a run: the parameters are refused or not, the party is made,
-- started and ends with a secret, which is stored or not, or the context is done first.
pub record ReshareEnv : Type 0 where
  pub decode : Text → Option StartParams
  pub rank : PeerId → ℕ
  pub sort_party_ids : List Party → List Party
  pub parameters_error : List Party → List Party → Option Party → ℤ → ℕ → Option TssError
  pub party_error : Option TssError
  pub start_error : Option TssError
  pub end : Option ℕ
  pub store_error : Option TssError

-- A run: it returns an error or none, with the process and the key share that it stores, or it panics.
pub data Ran : Type 0 where
  returned : Resharing → Bool → Option Keyshare → Option TssError → Ran
  panicked : Ran

-- The loop of `PopulatePartyStore` reads every pointer, and panics at nil.
unfoldable pub all_placed : List (Option Party) → Option (List Party)
all_placed [] = some []
all_placed (none ∷ slots) = none
all_placed (some p ∷ slots) = elim (all_placed slots) [ none ↦ none | some ps ↦ some (p ∷ ps) ]

-- `processEndMessage`
abbrev pub end_of : Resharing → Option ℕ → Option Keyshare
end_of r none = none
end_of r (some secret) =
    some (record { key = secret; threshold = r.new_threshold; peers = r.peers })

-- The error of `StoreKeyshare` is that of the run.
abbrev pub stored : ReshareEnv → Resharing → Option Keyshare → Ran
stored env r none = returned r true none none
stored env r (some k) = elim env.store_error [
  | some e ↦ returned r true none (some e)
  | none ↦ returned r true (some k) none
]

-- From the subscription on, which is there also when the party is not made.
abbrev pub run_party : ReshareEnv → Resharing → Ran
run_party env r = elim env.party_error [
  | some e ↦ returned r true none (some e)
  | none ↦ elim env.start_error [
    | some e ↦ returned r true none (some e)
    | none ↦ stored env r (end_of r env.end)
  ]
]

abbrev pub run_placed : ReshareEnv → Resharing → StartParams → List Party → List Party → Ran
run_placed env r params old new =
    elim (env.parameters_error old new (lookup r.host_id (populate_party_store new []))
      params.old_threshold r.new_threshold) [
        | some e ↦ returned r false none (some e)
        | none ↦ run_party env r
      ]

unfoldable pub run_parties : ReshareEnv → Resharing → StartParams → Ran
unfolding parties_from_peers sort_parties all_placed populate_party_store
run_parties env r params =
    let old = parties_from_peers env.sort_party_ids params.old_subset in
    let parties = parties_from_peers env.sort_party_ids r.peerstore in
    elim (sort_parties parties old) [
      | none ↦ panicked
      | some slots ↦ elim (all_placed slots) [
        | none ↦ panicked
        | some new ↦ run_placed env r params old new
      ]
    ]

-- The process after its parameters are refused: the last check comes after the sorting.
unfoldable pub refused : ReshareEnv → Resharing → ReshareError → Resharing
refused env r threshold_too_small = r
refused env r threshold_bigger_than_subset = r
refused env r invalid_peers_subset = record r {
  key = record (r.key) { peers = sort_peers env.rank r.key.peers };
}

abbrev pub run_validated :
    ReshareEnv → Resharing → Result ReshareError (Resharing × StartParams) → Ran
unfolding refused run_parties
run_validated env r (err e) = returned (refused env r e) false none (some (failure 1))
run_validated env r (ok (r', params)) = run_parties env r' params

abbrev pub run_decoded : ReshareEnv → Resharing → Option StartParams → Ran
unfolding run_validated validate_start_params
run_decoded env r none = returned r false none (some (failure 0))
run_decoded env r (some params) = run_validated env r (validate_start_params env.rank r params)

-- `Run`
unfoldable pub run : ReshareEnv → Resharing → Text → Ran
unfolding run_decoded
run env r params =
    if r.started
    then returned r false none (some process_started)
    else run_decoded env (record r { started = true }) (env.decode params)
