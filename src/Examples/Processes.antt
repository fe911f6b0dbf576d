-- ===== src/Examples/Processes.antt =====
-- A signing with threshold 1 among the peers 5, 7 and 9, a key generation, and a resharing that a fourth
-- peer joins.
use sprinter_signing.Base.{
  ℕ, ◌≤◌, ◌<◌, ◌≡◌, refl, false, ◌&&◌, none, some, List, [], ◌∷◌, ◌++◌, map, arith, contains,
  length, ok,
}
use sprinter_signing.Base.Int.{pos}
use sprinter_signing.Base.Text.{text_eq}
use sprinter_signing.Base.Sort.{sort_by_rank}
use sprinter_signing.Peers.{PeerId, peers_intersection}
use sprinter_signing.Tss.Process.{Keyshare}
use sprinter_signing.Tss.Signing.{
  Signing, RunEnv, SignatureData, ready, start_params, ready_participants, process_end_message,
  start_params-ready, process_end_message-layout, value_from,
}
use sprinter_signing.Tss.Signing.{result, broadcast}
use sprinter_signing.Tss.Parties.{Party}
use sprinter_signing.Tss.Resharing.{
  Resharing, StartParams, validate_start_params, validate_start_params_lem, sort_parties,
  sort_parties_lem, newcomers, numbered, sort_peers,
}

abbrev eight_bytes : PeerId → List ℕ
eight_bytes p = 0 ∷ 0 ∷ 0 ∷ 0 ∷ 0 ∷ 0 ∷ 0 ∷ p ∷ []

abbrev no_hash : List ℕ → List ℕ
no_hash bytes = bytes

abbrev key_of_three : Keyshare
key_of_three = record { key = 1; threshold = 1; peers = 5 ∷ 7 ∷ 9 ∷ [] }

abbrev signing : Signing
signing = record {
  host_id = 5;
  session_id = 1 ∷ [];
  started = false;
  peers = 5 ∷ 7 ∷ 9 ∷ [];
  coordinator = false;
  key = key_of_three;
  msg = 3;
  subscribed = false;
  cancelled = false;
}

start_params-ready_example :
    let chosen = start_params eight_bytes no_hash signing (5 ∷ 8 ∷ 9 ∷ []) in
    (length chosen ≡ 2)
    × ((p : PeerId)
        → contains chosen p ≡ (contains (5 ∷ 7 ∷ 9 ∷ []) p && contains (5 ∷ 8 ∷ 9 ∷ []) p))
unfolding ready ready_participants
start_params-ready_example = start_params-ready eight_bytes no_hash signing (5 ∷ 8 ∷ 9 ∷ []) [] refl

abbrev env : RunEnv
env = record {
  decode = λ t. some t;
  parameters_error = λ subset. none;
  party_error = none;
  start_error = none;
  wait = ok tt;
}

abbrev short_signature : SignatureData
short_signature = record { r = 2 ∷ []; s = 1 ∷ 3 ∷ []; recovery = 1 ∷ [] }

process_end_message-layout_example :
    (r32 s32 : List ℕ) × (length r32 ≡ 32)
    × (length s32 ≡ 32)
    × (value_from 0 r32 ≡ 2)
    × (value_from 0 s32 ≡ 259)
    × (let es = r32 ++ s32 ++ 28 ∷ [] in
        (process_end_message signing (some short_signature)).1
        ≡ result es (1 ∷ []) ∷ broadcast es (1 ∷ []) ∷ [])
process_end_message-layout_example =
    process_end_message-layout signing short_signature 1 (omega arith) (omega arith) refl

abbrev party : ℕ → PeerId → Party
party i p = record { id = p; index = i }

-- The ID itself as the rank, so that the highest comes first.
abbrev by_id : PeerId → ℕ
by_id p = p

abbrev resharing : Resharing
resharing = record {
  host_id = 5;
  peerstore = 5 ∷ 7 ∷ 8 ∷ [];
  session_id = 1 ∷ [];
  started = false;
  peers = 5 ∷ 7 ∷ 8 ∷ [];
  key = record { key = 1; threshold = 1; peers = 9 ∷ 7 ∷ 5 ∷ [] };
  new_threshold = 1;
}

abbrev params : StartParams
params = record { old_threshold = pos 1; old_subset = 7 ∷ 5 ∷ [] }

validate_start_params_example :
    ((t : ℕ) × (pos 1 ≡ pos t) × (0 < t) × (t ≤ 2))
    × (params.old_threshold ≡ pos 1)
    × (params.old_subset ≡ sort_peers by_id (5 ∷ 7 ∷ []))
    × (0 < 3
        → params.old_subset
          ≡ peers_intersection (sort_peers by_id (9 ∷ 7 ∷ 5 ∷ [])) (5 ∷ 7 ∷ 8 ∷ []))
unfolding validate_start_params sort_by_rank text_eq
validate_start_params_example =
    validate_start_params_lem by_id resharing resharing (pos 1) (5 ∷ 7 ∷ []) params refl

abbrev old_parties : List Party
old_parties = party 0 7 ∷ party 1 9 ∷ []

abbrev all_parties : List Party
all_parties = party 0 5 ∷ party 1 7 ∷ party 2 9 ∷ []

sort_parties_example :
    sort_parties all_parties old_parties
    ≡ some (map (λ p. some p) (old_parties ++ numbered 2 (newcomers (7 ∷ 9 ∷ []) all_parties)))
sort_parties_example =
    sort_parties_lem all_parties old_parties (ground arith) (ground arith) (ground arith)
