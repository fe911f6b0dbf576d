-- ===== src/Tss/Resharing/Defs.antt =====
-- The operations of a resharing process. The host's peerstore is the list `peerstore`.
use sprinter_signing.Base.{
  ℕ, zero, suc, Bool, false, not, ◌||◌, Option, none, some, List, [], ◌∷◌, ◌==◌, if◌then◌else◌,
  Result, ok, err, ◌>>◌, guard, length, replicate,
}
use sprinter_signing.Base.Int.{ℤ, pos, is_lt_ℕ, is_gt_ℕ}
use sprinter_signing.Base.Sort.{sort_by_rank}
use sprinter_signing.Base.Text.{Text, text_eq}
use sprinter_signing.Peers.{PeerId, peers_intersection, is_participant}
use sprinter_signing.Tss.Process.{TssError, Keyshare}
use sprinter_signing.Tss.Parties.{Party, ids}

pub record StartParams : Type 0 where
  pub old_threshold : ℤ
  pub old_subset : List PeerId

pub record Resharing : Type 0 where
  pub host_id : PeerId
  pub peerstore : List PeerId
  pub session_id : Text
  pub started : Bool
  pub peers : List PeerId
  pub key : Keyshare
  pub new_threshold : ℕ

pub data ReshareError : Type 0 where
  threshold_too_small threshold_bigger_than_subset invalid_peers_subset : ReshareError

abbrev pub empty_key : Keyshare
empty_key = record { key = 0; threshold = 0; peers = [] }

-- `NewResharing`: a relayer that cannot read a key share gets the empty one.
unfoldable pub new_resharing :
    Text → ℕ → PeerId → List PeerId → Result TssError Keyshare → Resharing
new_resharing sid threshold host peerstore keyshare = record {
  host_id = host;
  peerstore = peerstore;
  session_id = sid;
  started = false;
  peers = peerstore;
  key = elim keyshare [ ok k ↦ k | err e ↦ empty_key ];
  new_threshold = threshold;
}

unfoldable pub ready : Resharing → List PeerId → List PeerId → Result TssError Bool
ready r ready_peers excluded = ok (length ready_peers == length r.peerstore)

-- The peers of the peerstore that the key share names.
unfoldable pub valid_coordinators : Resharing → List PeerId
unfolding peers_intersection
valid_coordinators r = peers_intersection r.peerstore r.key.peers

-- `StartParams`, before it is encoded.
unfoldable pub start_params : Resharing → List PeerId → StartParams
unfolding peers_intersection
start_params r ready_peers = record {
  old_threshold = pos r.key.threshold;
  old_subset = peers_intersection r.key.peers r.peerstore;
}

-- `slices.Sort` on peer IDs; `rank` is higher the earlier a peer stands in the order of the IDs' bytes.
module _ (rank : PeerId → ℕ) where
  abbrev pub sort_peers : List PeerId → List PeerId
  sort_peers = sort_by_rank rank

  unfoldable pub is_subset_valid : Keyshare → List PeerId → List PeerId → Bool
  unfolding peers_intersection
  is_subset_valid key peerstore subset =
      length key.peers == 0
      || text_eq (sort_peers subset) (peers_intersection (sort_peers key.peers) peerstore)

  -- `validateStartParams`. It sorts the subset and the key share's peers where they stand, so the
  -- parameters and the process that the rest of `Run` sees are sorted.
  unfoldable pub validate_start_params :
      Resharing → StartParams → Result ReshareError (Resharing × StartParams)
  unfolding is_subset_valid
  validate_start_params r params = do
    guard (not (is_lt_ℕ params.old_threshold 1)) threshold_too_small
    guard (not (is_gt_ℕ params.old_threshold (length params.old_subset)))
        threshold_bigger_than_subset
    guard (is_subset_valid r.key r.peerstore params.old_subset) invalid_peers_subset
    ok (
      record r { key = record (r.key) { peers = sort_peers r.key.peers } },
      record params { old_subset = sort_peers params.old_subset },
    )

-- A slice of pointers, where `none` is nil. A write outside it panics: `none`.
unfoldable pub write_at : List (Option Party) → ℕ → Party → Option (List (Option Party))
write_at [] i p = none
write_at (s ∷ slots) zero p = some (some p ∷ slots)
write_at (s ∷ slots) (suc i) p = elim (write_at slots i p) [
  | none ↦ none
  | some slots' ↦ some (s ∷ slots')
]

-- `copy(dst, src)` onto the front of a slice.
unfoldable pub copy_onto : List (Option Party) → List Party → List (Option Party)
copy_onto [] src = []
copy_onto (s ∷ dst) [] = s ∷ dst
copy_onto (s ∷ dst) (p ∷ src) = some p ∷ copy_onto dst src

abbrev pub and_then :
    Option (List (Option Party))
    → (List (Option Party) → Option (List (Option Party)))
    → Option (List (Option Party))
and_then none next = none
and_then (some slots) next = next slots

-- The loop of `sortParties`: a party that is not an old one takes the next place and its number.
unfoldable pub place_newcomers :
    List PeerId → List Party → ℕ → List (Option Party) → Option (List (Option Party))
unfolding write_at is_participant
place_newcomers old [] index slots = some slots
place_newcomers old (p ∷ parties) index slots =
    let newcomer : Party = record { id = p.id; index = index } in
    let skipped = place_newcomers old parties index slots in
    let placed =
      and_then (write_at slots index newcomer) (place_newcomers old parties (suc index)) in
    if is_participant p.id old then skipped else placed

-- `sortParties`: the old parties keep their places, the others stand behind them.
unfoldable pub sort_parties : List Party → List Party → Option (List (Option Party))
unfolding copy_onto place_newcomers
sort_parties parties old =
    place_newcomers (ids old) parties (length old) (copy_onto (replicate (length parties) none) old)
