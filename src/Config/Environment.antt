-- ===== src/Config/Environment.antt =====
-- config/env.go: the configuration from environment variables, whose names are paths into a tree of maps.
-- The decoding of the tree and of the chains, by encoding/json, are parameters.
use sprinter_signing.Base.{
  ◌≡◌, refl, Bool, true, false, ◌||◌, ◌&&◌, Option, none, some, List, [], ◌∷◌, arith, ◌==◌,
  if◌then◌else◌, Result, ok, err, ◌>>=◌, ◌>>◌, or_fail,
}
use sprinter_signing.Base.Text.{Text, text_eq, text_eq_iff, bytes, split_at_byte}
use sprinter_signing.Config.Relayer.{RelayerConfigError, validate}
use sprinter_signing.Config.Merge.{RawConfig, ChainConfig}

-- `map[string]interface{}` of strings and such maps.
mutual
  pub data Value : Type 0 where
    leaf : Text → Value
    node : Entries → Value

  pub data Entries : Type 0 where
    empty : Entries
    entry : Text → Value → Entries → Entries

unfoldable pub find : Text → Entries → Option Value
find k empty = none
find k (entry j v m) = let rest = find k m in if text_eq j k then some v else rest

-- `m[k] = v`
unfoldable pub put : Text → Value → Entries → Entries
put k v empty = entry k v empty
put k v (entry j w m) = let rest = put k v m in if text_eq j k then entry k v m else entry j w rest

-- `mountMap`. A string that is in the way stays, and nothing is mounted.
unfoldable pub mount_map : List Text → Value → Entries → Entries
unfolding find put
mount_map [] v m = m
mount_map (k ∷ []) v m = put k v m
mount_map (k ∷ j ∷ ks) v m =
    let fresh = mount_map (j ∷ ks) v empty in
    elim (find k m) [
      | none ↦ put k (node fresh) m
      | some w ↦ elim w [ leaf t ↦ m | node inner ↦ put k (node (mount_map (j ∷ ks) v inner)) m ]
    ]

unfoldable pub contains_text : Text → Text → Bool
contains_text s [] = text_eq s []
contains_text s (c ∷ t) = starts_with s (c ∷ t) || contains_text s t
  where
    starts_with : Text → Text → Bool
    starts_with [] t = true
    starts_with (a ∷ s) [] = false
    starts_with (a ∷ s) (b ∷ t) = a == b && starts_with s t

-- `strings.SplitN(e, "=", 2)`
abbrev pub name_and_value : Text → Text × Text
name_and_value [] = ([], [])
name_and_value (c ∷ cs) =
    let (name, value) = name_and_value cs in if c == 61 then ([], cs) else (c ∷ name, value)

abbrev pub env_prefix : Text
env_prefix = bytes "SYG"

-- The loop of `loadENVToJsonStructure`.
unfoldable pub mount_environ : List Text → Entries → Entries
unfolding mount_map contains_text split_at_byte
mount_environ [] m = m
mount_environ (e ∷ es) m =
    let (name, value) = name_and_value e in
    mount_environ es
      (if contains_text env_prefix e then mount_map (split_at_byte 95 name) (leaf value) m else m)

pub data EnvError : Type 0 where
  not_decoded chains_not_decoded : EnvError
  invalid : RelayerConfigError → EnvError

abbrev pub validated : Result RelayerConfigError (Unit {0}) → Result EnvError (Unit {0})
validated (ok u) = ok u
validated (err e) = err (invalid e)

-- `loadFromEnv`; `chains` is the variable SYG_CHAINS, empty if it is not set.
unfoldable pub load_from_env :
    {F : Type 0}
    → (Entries → Option (RawConfig F))
    → (Text → Option (List (ChainConfig F)))
    → List Text
    → Text
    → Result EnvError (RawConfig F)
unfolding mount_environ validate
load_from_env decode decode_chains environ chains = do
  raw ← or_fail (decode (mount_environ environ empty)) not_decoded
  validated (validate raw.relayer_config)
  if text_eq chains [] then ok raw else do
    cc ← or_fail (decode_chains chains) chains_not_decoded
    ok (record raw { chain_configs = cc })

-- What stands at a path, and whether a string stands above it.
abbrev pub at_path : List Text → Entries → Option Value
at_path [] m = some (node m)
at_path (k ∷ []) m = find k m
at_path (k ∷ j ∷ ks) m = elim (find k m) [
  | none ↦ none
  | some w ↦ elim w [ leaf t ↦ none | node inner ↦ at_path (j ∷ ks) inner ]
]

abbrev pub is_blocked : List Text → Entries → Bool
is_blocked [] m = false
is_blocked (k ∷ []) m = false
is_blocked (k ∷ j ∷ ks) m = elim (find k m) [
  | none ↦ false
  | some w ↦ elim w [ leaf t ↦ true | node inner ↦ is_blocked (j ∷ ks) inner ]
]

find-put :
    (k j : Text) (v : Value) (m : Entries)
    → find j (put k v m) ≡ (if text_eq k j then some v else find j m)
unfolding find put
find-put k j v empty = ground arith
find-put k j v (entry i w m) =
    ground (arith, text_eq_iff k j, text_eq_iff i k, text_eq_iff i j, find-put k j v m)

empty_open : (ks : List Text) → is_blocked ks empty ≡ false
unfolding find
empty_open [] = refl
empty_open (k ∷ []) = refl
empty_open (k ∷ j ∷ ks) = refl

-- A variable is found at the path that its name is, unless a string stands above it; then nothing is. In
-- both cases the variables whose names begin otherwise stay as they are.
pub mount_map_lem :
    (k j : Text) (ks : List Text) (v : Value) (m : Entries)
    → (at_path (k ∷ ks) (mount_map (k ∷ ks) v m) ≡ (if is_blocked (k ∷ ks) m then none else some v))
      × (text_eq k j ≡ false → find j (mount_map (k ∷ ks) v m) ≡ find j m)
unfolding mount_map
mount_map_lem k j [] v m =
    (ground (arith, find-put k k v m, text_eq_iff k k), λ d. ground (arith, d, find-put k j v m))
mount_map_lem k j (i ∷ ks) v m = step (find k m) refl (λ n. (mount_map_lem i j ks v n).0)
  where
    step :
        (w : Option Value)
        → find k m ≡ w
        → ((n : Entries)
            → at_path (i ∷ ks) (mount_map (i ∷ ks) v n)
              ≡ (if is_blocked (i ∷ ks) n then none else some v))
        → (at_path (k ∷ i ∷ ks) (mount_map (k ∷ i ∷ ks) v m)
            ≡ (if is_blocked (k ∷ i ∷ ks) m then none else some v))
          × (text_eq k j ≡ false → find j (mount_map (k ∷ i ∷ ks) v m) ≡ find j m)
    step none e h = (
      ground (
        arith,
        e,
        h empty,
        empty_open (i ∷ ks),
        find-put k k (node (mount_map (i ∷ ks) v empty)) m,
        text_eq_iff k k,
      ),
      λ d. ground (arith, e, d, find-put k j (node (mount_map (i ∷ ks) v empty)) m),
    )
    step (some (leaf t)) e h = (ground (arith, e), λ d. ground (arith, e, d))
    step (some (node inner)) e h = (
      ground
          (arith, e, h inner, find-put k k (node (mount_map (i ∷ ks) v inner)) m, text_eq_iff k k),
      λ d. ground (arith, e, d, find-put k j (node (mount_map (i ∷ ks) v inner)) m),
    )
