-- ===== src/Topology.antt =====
-- topology/store.go, topology/encryption.go and cli/topology/encryptTopology.go: the topology in a file,
-- and how it is encrypted for publication. AES in CTR mode, the source of the IV, the file system and
-- encoding/json are parameters.
use sprinter_signing.Base.{
  ℕ, zero, suc, ◌≡◌, refl, ap, Bool, true, false, Option, none, some, [], ◌∷◌, ◌++◌, arith, Result,
  ok, err, ◌>>=◌, or_fail, length, take, ltb, if◌then◌else◌,
}
use sprinter_signing.Base.Text.{Text, text_eq_iff}
use sprinter_signing.Comm.Transport.Gate.{
  Codec, NetworkTopology, RawTopology, TopologyError, network_topology, process_raw_topology,
  trim_suffix, not_json, not_encrypted, not_stored,
}

abbrev drop : ℕ → Text → Text
drop zero t = t
drop (suc n) [] = []
drop (suc n) (b ∷ t) = drop n t

-- `AESEncryption`: the stream that an IV makes with the key, which is added to a text.
unfoldable pub decrypt : (Text → Text → Text) → Text → Option Text
decrypt xor_key_stream ct =
    if ltb (length ct) 16 then none else some (xor_key_stream (take 16 ct) (drop 16 ct))

-- `Encrypt`, where `iv` are the 16 random bytes, if they can be read.
unfoldable pub encrypt : (Text → Text → Text) → Option Text → Text → Option Text
encrypt xor_key_stream none plain = none
encrypt xor_key_stream (some iv) plain = some (iv ++ xor_key_stream iv plain)

take-iv : (iv t : Text) → take (length iv) (iv ++ t) ≡ iv
take-iv [] t = refl
take-iv (b ∷ iv) t = ap (λ l. b ∷ l) (take-iv iv t)

drop-iv : (iv t : Text) → drop (length iv) (iv ++ t) ≡ t
drop-iv [] t = refl
drop-iv (b ∷ iv) t = drop-iv iv t

length-iv_le : (iv t : Text) → ltb (length (iv ++ t)) (length iv) ≡ false
length-iv_le [] t = ground arith
length-iv_le (b ∷ iv) t = ground (arith, length-iv_le iv t)

decrypt-encrypt :
    (xor_key_stream : Text → Text → Text) (iv plain ct : Text)
    → ((v t : Text) → xor_key_stream v (xor_key_stream v t) ≡ t)
    → length iv ≡ 16
    → encrypt xor_key_stream (some iv) plain ≡ some ct
    → decrypt xor_key_stream ct ≡ some plain
unfolding encrypt decrypt
decrypt-encrypt xor iv plain ct twice l e = ground (
  arith,
  l,
  e,
  twice iv plain,
  length-iv_le iv (xor iv plain),
  take-iv iv (xor iv plain),
  drop-iv iv (xor iv plain),
)

-- `encryptTopology`: the hex text and the hash that it prints for a file.
unfoldable pub encrypt_topology :
    Codec → (Text → Text → Text) → Option Text → Text → Result TopologyError (Text × Text)
unfolding encrypt
encrypt_topology codec xor_key_stream iv file = do
  raw ← or_fail (codec.unmarshal file) not_json
  ct ← or_fail (encrypt xor_key_stream iv file) not_encrypted
  ok (codec.encode_hex ct, codec.encode_hex (codec.sha256 ct))

-- The published text ends with a newline, as `NetworkTopology` expects at most one.
trim_suffix-newline : (t : Text) → trim_suffix (t ++ 10 ∷ []) ≡ t
trim_suffix-newline [] = refl
trim_suffix-newline (c ∷ []) = refl
trim_suffix-newline (c ∷ d ∷ t) = ap (λ l. c ∷ l) (trim_suffix-newline (d ∷ t))

-- A relayer with the same key that fetches what was printed for a file, and expects the hash that was
-- printed, reads the topology that the file has.
pub encrypt_topology-network_topology :
    (codec : Codec) (xor_key_stream : Text → Text → Text) (iv file hex hash : Text)
    (raw : RawTopology)
    → ((v t : Text) → xor_key_stream v (xor_key_stream v t) ≡ t)
    → ((t : Text) → codec.decode_hex (codec.encode_hex t) ≡ some t)
    → ((ct plain : Text) → decrypt xor_key_stream ct ≡ some plain → codec.decrypt ct ≡ plain)
    → length iv ≡ 16
    → codec.unmarshal file ≡ some raw
    → encrypt_topology codec xor_key_stream (some iv) file ≡ ok (hex, hash)
    → network_topology codec (some (hex ++ 10 ∷ [])) hash ≡ process_raw_topology codec raw
unfolding encrypt_topology network_topology encrypt
encrypt_topology-network_topology codec xor iv file hex hash raw twice inverse same l u e =
    let ct = iv ++ xor iv file in
    ground (
      arith,
      u,
      e,
      inverse ct,
      same ct file (decrypt-encrypt xor iv file ct twice l refl),
      trim_suffix-newline hex,
      text_eq_iff (codec.encode_hex (codec.sha256 ct)) hash,
    )

-- `TopologyStore`: the file, and whether it can be opened. A topology that cannot be encoded leaves the
-- file empty.
unfoldable pub store_topology :
    (NetworkTopology → Option Text) → Bool → NetworkTopology → Option Text → Bool × Option Text
store_topology marshal can_open topology file =
    if can_open
    then elim (marshal topology) [ none ↦ (false, some []) | some kb ↦ (true, some kb) ]
    else (false, file)

-- `Topology`
unfoldable pub topology : (Text → Option NetworkTopology) → Option Text → Option NetworkTopology
topology unmarshal none = none
topology unmarshal (some tb) = unmarshal tb

-- At the start of `Run`: the stored topology, or else the published one, which is stored first.
unfoldable pub initial_topology :
    Codec
    → (NetworkTopology → Option Text)
    → (Text → Option NetworkTopology)
    → Bool
    → Option Text
    → Option Text
    → Result TopologyError NetworkTopology × Option Text
unfolding topology store_topology network_topology
initial_topology codec marshal unmarshal can_open body file = elim (topology unmarshal file) [
  | some t ↦ (ok t, file)
  | none ↦ elim (network_topology codec body []) [
    | err e ↦ (err e, file)
    | ok t ↦
        let (stored, file') = store_topology marshal can_open t file in
        if stored then (ok t, file') else (err not_stored, file')
  ]
]

-- A relayer that has started once starts again with the same topology, whatever is published by then.
pub initial_topology-again :
    (codec : Codec) (marshal : NetworkTopology → Option Text)
    (unmarshal : Text → Option NetworkTopology) (can_open can_open' : Bool)
    (body body' file : Option Text) (t : NetworkTopology)
    → ((n : NetworkTopology) (kb : Text) → marshal n ≡ some kb → unmarshal kb ≡ some n)
    → let (r, file') = initial_topology codec marshal unmarshal can_open body file in
      r ≡ ok t → initial_topology codec marshal unmarshal can_open' body' file' ≡ (ok t, file')
unfolding initial_topology topology store_topology
initial_topology-again codec marshal unmarshal can_open can_open' body body' file t inverse h =
    step (topology unmarshal file) (network_topology codec body []) refl refl
  where
    later : Option Text
    later = (initial_topology codec marshal unmarshal can_open body file).1

    fetched :
        (n : NetworkTopology) (kb : Option Text)
        → topology unmarshal file ≡ none
        → network_topology codec body [] ≡ ok n
        → marshal n ≡ kb
        → initial_topology codec marshal unmarshal can_open' body' later ≡ (ok t, later)
    fetched n none e f m = ground (arith, h, e, f, m)
    fetched n (some kb) e f m = ground (arith, h, e, f, m, inverse n kb m)

    step :
        (stored : Option NetworkTopology) (r : Result TopologyError NetworkTopology)
        → topology unmarshal file ≡ stored
        → network_topology codec body [] ≡ r
        → initial_topology codec marshal unmarshal can_open' body' later ≡ (ok t, later)
    step (some n) r e f = ground (arith, h, e)
    step none (err x) e f = ground (arith, h, e, f)
    step none (ok n) e f = fetched n (marshal n) e f refl
