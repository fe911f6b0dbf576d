-- ===== src/Tss/Signing/Defs.antt =====
-- The operations of a signing process. The party of the tss library, its channels and JSON are
-- parameters; the goroutines that `Run` waits for are represented by their common result.
use sprinter_signing.Base.{
  ℕ, ◌+◌, ◌-◌, ◌%◌, Bool, true, false, not, ◌&&◌, Option, none, some, List, [], ◌∷◌, ◌++◌, ◌==◌,
  if◌then◌else◌, Result, ok, err, ◌>>=◌, contains, keep, length, replicate,
}
use sprinter_signing.Base.Text.{Text, text_eq}
use sprinter_signing.Peers.{PeerId, sort_peers_for_session, get_peer_ids, is_participant}
use sprinter_signing.Tss.Process.{TssError, process_started, subset_error, failure, Keyshare}

-- The fields of `Signing` and of its `BaseTss` that the code reads or writes.
pub record Signing : Type 0 where
  pub host_id : PeerId
  pub session_id : Text
  pub started : Bool
  pub peers : List PeerId
  pub coordinator : Bool
  pub key : Keyshare
  pub msg : ℕ
  pub subscribed : Bool
  pub cancelled : Bool

-- `NewSigning`: the fetcher's key share, read under its lock, or the error of reading it.
unfoldable pub new_signing : ℕ → Text → PeerId → Result TssError Keyshare → Result TssError Signing
new_signing msg sid host keyshare = do
  key ← keyshare
  ok (record {
    host_id = host;
    session_id = sid;
    started = false;
    peers = key.peers;
    coordinator = false;
    key = key;
    msg = msg;
    subscribed = false;
    cancelled = false;
  })

-- `readyParticipants`: the ready peers that hold a key share.
unfoldable pub ready_participants : Keyshare → List PeerId → List PeerId
ready_participants key ready_peers = keep (contains key.peers) ready_peers

unfoldable pub ready : Signing → List PeerId → List PeerId → Result TssError Bool
unfolding ready_participants
ready s ready_peers excluded =
    ok (length (ready_participants s.key ready_peers) == s.key.threshold + 1)

-- The loop of `StartParams`: it stops when the subset has `limit` members.
unfoldable pub choose_subset : ℕ → List PeerId → List PeerId → List PeerId
choose_subset limit chosen [] = chosen
choose_subset limit chosen (p ∷ ps) =
    let more = choose_subset limit (chosen ++ p ∷ []) ps in
    if length (chosen ++ p ∷ []) == limit then chosen ++ p ∷ [] else more

-- `StartParams`, before the subset is encoded.
module _ (id_bytes : PeerId → List ℕ) (keccak256 : List ℕ → List ℕ) where
  unfoldable pub start_params : Signing → List PeerId → List PeerId
  unfolding ready_participants choose_subset
  start_params s ready_peers = choose_subset (s.key.threshold + 1) [] (
      get_peer_ids (
        sort_peers_for_session id_bytes keccak256 (ready_participants s.key ready_peers)
          s.session_id))

-- What happens in `Run` outside this file: how the start parameters decode, whether the party can be
-- made and started, and what the pool of goroutines returns.
pub record RunEnv : Type 0 where
  pub decode : Text → Option (List PeerId)
  pub parameters_error : List PeerId → Option TssError
  pub party_error : Option TssError
  pub start_error : Option TssError
  pub wait : Result TssError (Unit {0})

abbrev fails : Option TssError → Result TssError (Unit {0}) → Result TssError (Unit {0})
fails none next = next
fails (some e) next = err e

-- After the subscription: the party starts and the goroutines run to their end.
run_party : RunEnv → Signing → Signing × Result TssError (Unit {0})
run_party env s = elim env.party_error [
  | some e ↦ (s, err e)
  | none ↦ (record s { subscribed = true }, fails env.start_error env.wait)
]

run_subset : RunEnv → Signing → List PeerId → Signing × Result TssError (Unit {0})
unfolding run_party
run_subset env s subset =
    if is_participant s.host_id subset
    then elim (env.parameters_error subset) [
      | some e ↦ (record s { peers = subset }, err e)
      | none ↦ run_party env (record s { peers = subset })
    ]
    else (s, err (subset_error s.host_id))

-- `Run`: at most one run of a process gets past the flag.
unfoldable pub run : RunEnv → Signing → Bool → Text → Signing × Result TssError (Unit {0})
unfolding run_subset
run env s coordinator params =
    if s.started then (s, err process_started) else elim (env.decode params) [
      | none ↦ (record s { started = true; coordinator = coordinator }, err (failure 0))
      | some subset ↦ run_subset env (record s { started = true; coordinator = coordinator }) subset
    ]

unfoldable pub stop : Signing → Signing
stop s = record s { subscribed = false; cancelled = true }

pub record SignatureData : Type 0 where
  pub r : List ℕ
  pub s : List ℕ
  pub recovery : List ℕ

-- go-ethereum's `LeftPadBytes`: zeros in front up to the length, a longer slice as it is.
unfoldable pub left_pad_bytes : List ℕ → ℕ → List ℕ
left_pad_bytes b n = replicate (n - length b) 0 ++ b

-- `es[len(es)-1] += 27`, on a byte.
unfoldable pub add_to_last : List ℕ → ℕ → List ℕ
add_to_last [] n = []
add_to_last (b ∷ []) n = ((b + n) % 256) ∷ []
add_to_last (b ∷ c ∷ bs) n = b ∷ add_to_last (c ∷ bs) n

unfoldable pub signature_bytes : SignatureData → List ℕ
unfolding left_pad_bytes add_to_last
signature_bytes sig =
    add_to_last (left_pad_bytes sig.r 32 ++ left_pad_bytes sig.s 32 ++ sig.recovery) 27

-- What `processEndMessage` does with a signature: it goes to the result channel, and from there to
-- the cache, and it is sent to the other relayers.
pub data EndAction : Type 0 where
  result : List ℕ → Text → EndAction
  broadcast : List ℕ → Text → EndAction

unfoldable pub distribute_signature : Signing → List ℕ → List EndAction
distribute_signature s es = if s.coordinator then [] else broadcast es s.session_id ∷ []

-- `none` is the end of the context. Either way the deferred `Cancel` runs.
unfoldable pub process_end_message : Signing → Option SignatureData → Signing × List EndAction
unfolding signature_bytes distribute_signature
process_end_message s none = (record s { cancelled = true }, [])
process_end_message s (some sig) =
    let es = signature_bytes sig in
    (record s { cancelled = true }, result es s.session_id ∷ distribute_signature s es)

-- The test at a tick: some party is waited for, and the same ones as at the last tick.
unfoldable pub is_stuck : List PeerId → List PeerId → Bool
is_stuck waiting now = not (length waiting == 0) && text_eq now waiting

-- `monitorSigning`: one list of the parties that are waited for at each tick, then the end of the
-- context. It fails when the same parties are missing at two ticks in a row.
unfoldable pub monitor_signing : List PeerId → List (List PeerId) → Result TssError (Unit {0})
monitor_signing waiting [] = ok tt
monitor_signing waiting (now ∷ later) =
    let next = monitor_signing now later in if is_stuck waiting now then err (failure 1) else next
