-- ===== src/Tss/Resharing/NoPanic.antt =====
-- A relayer that holds a key share does not panic in a run of a resharing: the old subset that it accepts
-- has places among the parties of its peerstore.
use sprinter_signing.Base.{
  ℕ, ◌≡◌, ◌<◌, refl, sym, ap, ◌∙◌, subst, Bool, true, false, Option, none, some, List, [], ◌∷◌,
  ◌++◌, map, arith, Result, ok, err, length, contains, Elem, Distinct, All, ◌≢◌,
}
use sprinter_signing.Base.Sort.{insert_by_rank, sort_by_rank}
use sprinter_signing.Base.Text.{Text}
use sprinter_signing.Peers.{
  PeerId, peers_intersection, peer_sets_members, Distinct-peers_intersection,
}
use sprinter_signing.Tss.Process.{TssError, Keyshare}
use sprinter_signing.Tss.Parties.{Party, ids, parties_from_peers}
use sprinter_signing.Tss.Resharing.Defs.{
  StartParams, Resharing, ReshareError, sort_peers, validate_start_params, sort_parties,
}
use sprinter_signing.Tss.Resharing.Params.{validate_start_params_lem}
use sprinter_signing.Tss.Resharing.Newcomers.{numbered, newcomers}
use sprinter_signing.Tss.Resharing.Order.{sort_parties_lem}
use sprinter_signing.Tss.Resharing.Run.{
  ReshareEnv, returned, panicked, all_placed, run_parties, run_validated, run,
}

contains-insert_by_rank :
    (rank : PeerId → ℕ) (x a : PeerId) (ys : List PeerId)
    → contains (insert_by_rank rank x ys) a ≡ contains (x ∷ ys) a
unfolding insert_by_rank
contains-insert_by_rank rank x a [] = refl
contains-insert_by_rank rank x a (y ∷ ys) = ground (arith, contains-insert_by_rank rank x a ys)

Distinct-insert_by_rank :
    (rank : PeerId → ℕ) (x : PeerId) (ys : List PeerId)
    → contains ys x ≡ false
    → Distinct ys
    → Distinct (insert_by_rank rank x ys)
unfolding insert_by_rank
Distinct-insert_by_rank rank x [] h d = (refl, tt)
Distinct-insert_by_rank rank x (y ∷ ys) h d =
    ground (arith, h, d, Distinct-insert_by_rank rank x ys, contains-insert_by_rank rank x y ys)

contains-sort_peers :
    (rank : PeerId → ℕ) (a : PeerId) (xs : List PeerId)
    → contains (sort_peers rank xs) a ≡ contains xs a
unfolding sort_by_rank
contains-sort_peers rank a [] = refl
contains-sort_peers rank a (x ∷ xs) =
    ground
      (arith, contains-insert_by_rank rank x a (sort_peers rank xs), contains-sort_peers rank a xs)

Distinct-sort_peers :
    (rank : PeerId → ℕ) (xs : List PeerId) → Distinct xs → Distinct (sort_peers rank xs)
unfolding sort_by_rank
Distinct-sort_peers rank [] d = tt
Distinct-sort_peers rank (x ∷ xs) d =
    Distinct-insert_by_rank rank x (sort_peers rank xs)
      (ground (arith, d, contains-sort_peers rank x xs)) (Distinct-sort_peers rank xs d.1)

-- The tss library's `SortPartyIDs` rearranges the parties.
pub record SortsById (sort : List Party → List Party) : Type 0 where
  pub same_members :
      (ps : List Party) (a : PeerId) → contains (ids (sort ps)) a ≡ contains (ids ps) a
  pub still_distinct : (ps : List Party) → Distinct (ids ps) → Distinct (ids (sort ps))

ids-unnumbered : (peers : List PeerId) → ids (map (λ p. record { id = p; index = 0 }) peers) ≡ peers
ids-unnumbered [] = refl
ids-unnumbered (p ∷ peers) = ap (λ ps. p ∷ ps) (ids-unnumbered peers)

all_placed-some : (ps : List Party) → all_placed (map (λ p. some p) ps) ≡ some ps
unfolding all_placed
all_placed-some [] = refl
all_placed-some (p ∷ ps) = ground (arith, all_placed-some ps)

All-Elem : (xs ys : List PeerId) → ((a : PeerId) → Elem a xs → Elem a ys) → All (λ p. Elem p ys) xs
All-Elem [] ys h = tt
All-Elem (x ∷ xs) ys h = (h x (ground arith), All-Elem xs ys (λ a e. h a (ground (arith, e))))

module _ (sort : List Party → List Party) (sorts : SortsById sort) where
  contains-parties_from_peers :
      (peers : List PeerId) (a : PeerId)
      → contains (ids (parties_from_peers sort peers)) a ≡ contains peers a
  unfolding parties_from_peers
  contains-parties_from_peers peers a =
      sorts.same_members (map (λ p. record { id = p; index = 0 }) peers) a
      ∙ ap (λ l. contains l a) (ids-unnumbered peers)

  Distinct-parties_from_peers :
      (peers : List PeerId) → Distinct peers → Distinct (ids (parties_from_peers sort peers))
  unfolding parties_from_peers
  Distinct-parties_from_peers peers d =
      sorts.still_distinct (map (λ p. record { id = p; index = 0 }) peers)
        (subst Distinct (sym (ids-unnumbered peers)) d)

  -- An old subset of the peerstore has its places.
  old_parties_placed :
      (old peers : List PeerId)
      → Distinct old
      → Distinct peers
      → ((a : PeerId) → Elem a old → Elem a peers)
      → let old_parties = parties_from_peers sort old in
        sort_parties (parties_from_peers sort peers) old_parties
        ≡ some (
            map
              (λ p. some p)
              (old_parties
                ++ numbered
                    (length old_parties)
                    (newcomers (ids old_parties) (parties_from_peers sort peers))))
  old_parties_placed old peers d e h =
      let old_parties = parties_from_peers sort old in
      let parties = parties_from_peers sort peers in
      sort_parties_lem parties old_parties (Distinct-parties_from_peers old d)
        (Distinct-parties_from_peers peers e)
        (All-Elem (ids old_parties) (ids parties) (λ a m.
          contains-parties_from_peers peers a ∙ h a (sym (contains-parties_from_peers old a) ∙ m)))

run_parties_returns :
    (env : ReshareEnv) (r : Resharing) (params : StartParams) (key_peers : List PeerId)
    → SortsById env.sort_party_ids
    → Distinct key_peers
    → Distinct r.peerstore
    → params.old_subset ≡ peers_intersection key_peers r.peerstore
    → run_parties env r params ≢ panicked
unfolding run_parties
run_parties_returns env r params key_peers sorts d e s =
    let old = parties_from_peers env.sort_party_ids params.old_subset in
    let parties = parties_from_peers env.sort_party_ids r.peerstore in
    let new = old ++ numbered (length old) (newcomers (ids old) parties) in
    let placed =
      old_parties_placed env.sort_party_ids sorts params.old_subset r.peerstore
        (subst Distinct (sym s) (Distinct-peers_intersection key_peers r.peerstore d)) e
        (λ a m. ground (arith, s, m, (peer_sets_members key_peers r.peerstore a).1)) in
    λ p. ground (arith, p, placed, all_placed-some new)

run_parties_stores :
    (env : ReshareEnv) (r r' : Resharing) (params : StartParams) (subscribed : Bool) (k : Keyshare)
    (e : Option TssError)
    → run_parties env r params ≡ returned r' subscribed (some k) e
    → (subscribed ≡ true) × (e ≡ none) × (k.threshold ≡ r.new_threshold) × (k.peers ≡ r.peers)
unfolding run_parties
run_parties_stores env r r' params subscribed k e h = ground (arith, h)

-- The parameters are checked for the process as it is, but for the order of the key share's peers.
validate_start_params_process :
    (rank : PeerId → ℕ) (r r' : Resharing) (params params' : StartParams)
    → validate_start_params rank r params ≡ ok (r', params')
    → r' ≡ record r { key = record (r.key) { peers = sort_peers rank r.key.peers } }
unfolding validate_start_params
validate_start_params_process rank r r' params params' h = ground (arith, h)

-- A relayer that holds a key share, its peers and those of the peerstore being distinct, does not panic in
-- a run, whatever the start message says. A key share is stored only by the first run of the process,
-- after it has subscribed and without an error, and it has the new threshold and the process's peers.
pub run_completes :
    (env : ReshareEnv) (r : Resharing) (params : Text)
    → SortsById env.sort_party_ids
    → 0 < length r.key.peers
    → Distinct r.key.peers
    → Distinct r.peerstore
    → (run env r params ≢ panicked)
      × ((r' : Resharing) (subscribed : Bool) (k : Keyshare) (e : Option TssError)
          → run env r params ≡ returned r' subscribed (some k) e
          → (r.started ≡ false)
            × (subscribed ≡ true)
            × (e ≡ none)
            × (k.threshold ≡ r.new_threshold)
            × (k.peers ≡ r.peers))
unfolding run
run_completes env r params sorts held d e = (
  λ p. returns (env.decode params) refl p,
  λ r' subscribed k x h. stores r' subscribed k x (env.decode params) refl h,
)
  where
    s : Resharing
    s = record r { started = true }

    after_checks :
        (ps : StartParams) (v : Result ReshareError (Resharing × StartParams))
        → validate_start_params env.rank s ps ≡ v
        → run_validated env s v ≢ panicked
    after_checks ps (err x) v p = cc
    after_checks ps (ok (r', ps')) v p =
        let same = validate_start_params_process env.rank s r' ps ps' v in
        run_parties_returns env r' ps' (sort_peers env.rank r.key.peers) sorts
          (Distinct-sort_peers env.rank r.key.peers d) (subst Distinct (ground (arith, same)) e)
          (ground (
            arith,
            same,
            (validate_start_params_lem env.rank s r' ps.old_threshold ps.old_subset ps' v).3 held,
          ))
          p

    returns : (ps : Option StartParams) → env.decode params ≡ ps → run env r params ≢ panicked
    returns none q p = ground (arith, q, p)
    returns (some ps) q p =
        after_checks ps (validate_start_params env.rank s ps) refl (ground (arith, q, p))

    stores :
        (r' : Resharing) (subscribed : Bool) (k : Keyshare) (x : Option TssError)
        (ps : Option StartParams)
        → env.decode params ≡ ps
        → run env r params ≡ returned r' subscribed (some k) x
        → (r.started ≡ false)
          × (subscribed ≡ true)
          × (x ≡ none)
          × (k.threshold ≡ r.new_threshold)
          × (k.peers ≡ r.peers)
    stores r' subscribed k x none q h = ground (arith, q, h)
    stores r' subscribed k x (some ps) q h = checked (validate_start_params env.rank s ps) refl
      where
        checked :
            (v : Result ReshareError (Resharing × StartParams))
            → validate_start_params env.rank s ps ≡ v
            → (r.started ≡ false)
              × (subscribed ≡ true)
              × (x ≡ none)
              × (k.threshold ≡ r.new_threshold)
              × (k.peers ≡ r.peers)
        checked (err y) v = ground (arith, q, h, v)
        checked (ok (r2, ps')) v = ground (
          arith,
          q,
          h,
          v,
          validate_start_params_process env.rank s r2 ps ps' v,
          run_parties_stores env r2 r' ps' subscribed k x,
        )
