-- ===== src/Tss/Keygen.antt =====
-- tss/ecdsa/keygen/keygen.go: a process that generates a key share. The party of the tss library is a
-- parameter: `end` is the secret that it ends with, or nothing where the context ends first.
use sprinter_signing.Base.{
  ℕ, ◌≡◌, refl, Bool, true, false, Option, none, some, List, [], ◌∷◌, Result, ok, err, length, ◌==◌,
  if◌then◌else◌,
}
use sprinter_signing.Base.Text.{Text}
use sprinter_signing.Peers.{PeerId}
use sprinter_signing.Tss.Process.{TssError, process_started, failure, Keyshare}
use sprinter_signing.Tss.KeyStore.{
  KeyStore, Outcome, done, ◌and_then◌, lock_keyshare, unlock_keyshare, store_keyshare,
}

pub record Keygen : Type 0 where
  pub host_id : PeerId
  pub peerstore : List PeerId
  pub session_id : Text
  pub started : Bool
  pub peers : List PeerId
  pub threshold : ℕ

unfoldable pub new_keygen : Text → ℕ → PeerId → List PeerId → Keygen
new_keygen sid threshold host peerstore = record {
  host_id = host;
  peerstore = peerstore;
  session_id = sid;
  started = false;
  peers = peerstore;
  threshold = threshold;
}

unfoldable pub ready : Keygen → List PeerId → List PeerId → Result TssError Bool
ready k ready_peers [] = ok (length ready_peers == length k.peerstore)
ready k ready_peers (p ∷ excluded) = err (failure 1)

unfoldable pub valid_coordinators : Keygen → List PeerId
valid_coordinators k = k.peerstore

-- `StartParams`
abbrev pub start_params : Keygen → List PeerId → Text
start_params k ready_peers = []

-- `processEndMessage`: the key share that is stored names all the peers.
unfoldable pub process_end_message : Keygen → Option ℕ → KeyStore → KeyStore
unfolding store_keyshare
process_end_message k none s = s
process_end_message k (some secret) s =
    store_keyshare (record { key = secret; threshold = k.threshold; peers = k.peers }) s

-- `Run`: the process after the call, its error, and what became of the store. It takes the lock and
-- leaves it to `stop` to give it back. `party` is the error of creating or starting the party.
unfoldable pub run :
    Option TssError → Option ℕ → Keygen → KeyStore → Keygen × Option TssError × Outcome
unfolding lock_keyshare process_end_message
run party end k s = if k.started then (k, some process_started, done s) else (
  record k { started = true },
  party,
  lock_keyshare s and_then λ s'.
      done (elim party [ none ↦ process_end_message k end s' | some e ↦ s' ]),
)

-- `Stop`, as far as it touches the store.
unfoldable pub stop : Keygen → KeyStore → Outcome
unfolding unlock_keyshare
stop k s = unlock_keyshare s

-- A run of a new process on a free store, with its end, stores the secret with all the peers of the
-- host and the threshold that was asked for; the store is free after the process is stopped. A second
-- run is refused and touches nothing.
pub run-stop :
    (sid : Text) (threshold : ℕ) (host : PeerId) (peerstore : List PeerId) (secret : ℕ)
    (file : Option Keyshare) (s : KeyStore)
    → let k = new_keygen sid threshold host peerstore in
      let (k', e, o) = run none (some secret) k (record { held = false; file = file }) in
      (e ≡ none)
      × ((o and_then stop k')
          ≡ done (record {
            held = false;
            file = some (record { key = secret; threshold = threshold; peers = peerstore });
          }))
      × (run none (some secret) k' s ≡ (k', some process_started, done s))
unfolding run stop new_keygen lock_keyshare unlock_keyshare process_end_message store_keyshare
run-stop sid threshold host peerstore secret file s = (refl, refl, refl)
