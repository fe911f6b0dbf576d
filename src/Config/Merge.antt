-- ===== src/Config/Merge.antt =====
-- config/config.go: the configuration that is read is completed by one that is there. JSON numbers are
-- float64, a parameter; so are viper's reading, the defaults and mergo, which fills in the fields that
-- a chain lacks.
use sprinter_signing.Base.{
  ℕ, suc, ◌≡◌, ◌≢◌, refl, ◌↔◌, subst, Bool-cases, inl, inr, Bool, true, false, not, Option, none,
  some, List, [], ◌∷◌, arith, if◌then◌else◌, Result, ok, err, ◌>>=◌, ◌>>◌, guard, or_fail,
}
use sprinter_signing.Base.Int.{ℤ, pos, negsuc}
use sprinter_signing.Base.Text.{Text, text_eq, text_eq_iff, bytes, text_key}
use sprinter_signing.Base.Dict.{Dict, lookup}
use sprinter_signing.Chains.Handler.{HoldsFor}
use sprinter_signing.Config.Relayer.{
  Parsers, RawRelayerConfig, RelayerConfig, RelayerConfigError, new_relayer_config,
}

-- Go's float64: the conversion of an int, and `==`.
pub record Floats (F : Type 0) : Type 0 where
  pub of_int : ℤ → F
  pub float_eq : F → F → Bool

-- An `interface{}` that is not nil; `other` stands for the objects and lists.
pub data Value (F : Type 0) : Type 0 where
  int : ℤ → Value F
  float : F → Value F
  text : Text → Value F
  other : ℕ → Value F

abbrev pub ChainConfig : Type 0 → Type 0
ChainConfig F = Dict Text (Value F)

pub record RawConfig (F : Type 0) : Type 0 where
  pub relayer_config : RawRelayerConfig
  pub chain_configs : List (ChainConfig F)

pub record Config (F : Type 0) : Type 0 where
  pub relayer_config : RelayerConfig
  pub chain_configs : List (ChainConfig F)

pub data MergeError : Type 0 where
  not_read not_set : MergeError
  relayer_error : RelayerConfigError → MergeError
  no_id : ℕ → MergeError
  no_type : MergeError
  missing_chain : MergeError
  not_merged : MergeError

abbrev pub id_key : Text
id_key = bytes "id"

abbrev pub type_key : Text
type_key = bytes "type"

abbrev int_eq : ℤ → ℤ → Bool
int_eq (pos m) (pos n) = text_eq (m ∷ []) (n ∷ [])
int_eq (pos m) (negsuc n) = false
int_eq (negsuc m) (pos n) = false
int_eq (negsuc m) (negsuc n) = text_eq (m ∷ []) (n ∷ [])

-- `chain["id"] == 0 || chain["id"] == nil`: the constant is an int, so that no float64 equals it.
abbrev pub lacks_id : {F : Type 0} → ChainConfig F → Bool
lacks_id chain = elim (lookup id_key chain) [
  | none ↦ true
  | some v ↦ elim v [
    | int z ↦ int_eq z (pos 0)
    | float f ↦ false
    | text t ↦ false
    | other n ↦ false
  ]
]

-- `chain["type"] == "" || chain["type"] == nil`
abbrev pub lacks_type : {F : Type 0} → ChainConfig F → Bool
lacks_type chain = elim (lookup type_key chain) [
  | none ↦ true
  | some v ↦ elim v [ int z ↦ false | float f ↦ false | text t ↦ text_eq t [] | other n ↦ false ]
]

lacks_id_iff :
    {F : Type 0} (chain : ChainConfig F) (v : Option (Value F))
    → lookup id_key chain ≡ v
    → (lacks_id chain ≡ false) ↔ ((v ≢ none) × (v ≢ some (int (pos 0))))
lacks_id_iff chain none h = ground (arith, h)
lacks_id_iff chain (some (int (pos n))) h = ground (arith, h, text_eq_iff (n ∷ []) (0 ∷ []))
lacks_id_iff chain (some (int (negsuc n))) h = ground (arith, h)
lacks_id_iff chain (some (float f)) h = ground (arith, h)
lacks_id_iff chain (some (text t)) h = ground (arith, h)
lacks_id_iff chain (some (other n)) h = ground (arith, h)

lacks_type_iff :
    {F : Type 0} (chain : ChainConfig F) (v : Option (Value F))
    → lookup type_key chain ≡ v
    → (lacks_type chain ≡ false) ↔ ((v ≢ none) × (v ≢ some (text [])))
lacks_type_iff chain none h = ground (arith, h)
lacks_type_iff chain (some (int z)) h = ground (arith, h)
lacks_type_iff chain (some (float f)) h = ground (arith, h)
lacks_type_iff chain (some (text t)) h = ground (arith, h, text_eq_iff t [])
lacks_type_iff chain (some (other n)) h = ground (arith, h)

module _ {F : Type 0} (floats : Floats F) where
  -- `compareDomainID`
  unfoldable pub compare_domain_id : Option (Value F) → Option (Value F) → Bool
  compare_domain_id (some (int a)) (some (int b)) = int_eq a b
  compare_domain_id (some (int a)) (some (float b)) = floats.float_eq (floats.of_int a) b
  compare_domain_id (some (float a)) (some (int b)) = floats.float_eq a (floats.of_int b)
  compare_domain_id (some (float a)) (some (float b)) = floats.float_eq a b
  compare_domain_id _ _ = false

  -- `findChainConfig`
  unfoldable pub find_chain_config :
      Option (Value F) → List (ChainConfig F) → Result MergeError (ChainConfig F)
  unfolding compare_domain_id
  find_chain_config id [] = err missing_chain
  find_chain_config id (config ∷ configs) =
      let rest = find_chain_config id configs in
      if compare_domain_id id (lookup id_key config) then ok config else rest

  -- The first chain that has the ID, and none before it does.
  pub data IsFirst (id : Option (Value F)) : List (ChainConfig F) → ChainConfig F → Type 0 where
    here :
        {config : ChainConfig F} {configs : List (ChainConfig F)}
        → compare_domain_id id (lookup id_key config) ≡ true
        → IsFirst id (config ∷ configs) config
    there :
        {config found : ChainConfig F} {configs : List (ChainConfig F)}
        → compare_domain_id id (lookup id_key config) ≡ false
        → IsFirst id configs found
        → IsFirst id (config ∷ configs) found

  find_chain_config-IsFirst :
      (id : Option (Value F)) (configs : List (ChainConfig F)) (found : ChainConfig F)
      → find_chain_config id configs ≡ ok found
      → IsFirst id configs found
  unfolding find_chain_config
  find_chain_config-IsFirst id [] found h = absurd (ground (arith, h))
  find_chain_config-IsFirst id (config ∷ configs) found h =
      elim (Bool-cases (compare_domain_id id (lookup id_key config))) [
        | inl e ↦ subst (IsFirst id (config ∷ configs)) (ground (arith, h, e)) (here e)
        | inr e ↦ there e (find_chain_config-IsFirst id configs found (ground (arith, h, e)))
      ]

  IsFirst-find_chain_config :
      (id : Option (Value F)) (configs : List (ChainConfig F)) (found : ChainConfig F)
      → IsFirst id configs found
      → find_chain_config id configs ≡ ok found
  unfolding find_chain_config
  IsFirst-find_chain_config id [] found f = elim f [ ]
  IsFirst-find_chain_config id (config ∷ configs) found (here e) = ground (arith, e)
  IsFirst-find_chain_config id (config ∷ configs) found (there e f) =
      ground (arith, e, IsFirst-find_chain_config id configs found f)

  module _ (merge : ChainConfig F → ChainConfig F → Result MergeError (ChainConfig F)) where
    -- The loop of `processRawConfig`, from chain `i`.
    unfoldable pub merge_chains :
        List (ChainConfig F) → ℕ → List (ChainConfig F) → Result MergeError (List (ChainConfig F))
    unfolding find_chain_config
    merge_chains configs i [] = ok []
    merge_chains configs i (chain ∷ chains) = do
      guard (not (lacks_id chain)) (no_id i)
      guard (not (lacks_type chain)) no_type
      config ← find_chain_config (lookup id_key chain) configs
      merged ← merge chain config
      rest ← merge_chains configs (suc i) chains
      ok (merged ∷ rest)

    abbrev pub relayer_of :
        Result RelayerConfigError RelayerConfig → Result MergeError RelayerConfig
    relayer_of (ok c) = ok c
    relayer_of (err e) = err (relayer_error e)

    abbrev pub merge_into :
        RelayerConfig → RawConfig F → Option (Config F) → Result MergeError (Config F)
    merge_into relayer raw none =
        ok (record { relayer_config = relayer; chain_configs = raw.chain_configs })
    merge_into relayer raw (some config) = do
      chains ← merge_chains config.chain_configs 0 raw.chain_configs
      ok (record { relayer_config = relayer; chain_configs = chains })

    -- `processRawConfig`; `set_defaults` is `defaults.Set`.
    unfoldable pub process_raw_config :
        (RawConfig F → Result MergeError (RawConfig F))
        → Parsers
        → RawConfig F
        → Option (Config F)
        → Result MergeError (Config F)
    unfolding merge_chains new_relayer_config
    process_raw_config set_defaults parsers raw config = do
      raw ← set_defaults raw
      relayer ← relayer_of (new_relayer_config parsers raw.relayer_config)
      merge_into relayer raw config

    -- `GetConfigFromFile` on what viper reads, and `GetConfigFromENV` on what the environment gives.
    unfoldable pub get_config :
        (RawConfig F → Result MergeError (RawConfig F))
        → Parsers
        → Option (RawConfig F)
        → Option (Config F)
        → Result MergeError (Config F)
    unfolding process_raw_config
    get_config set_defaults parsers source config = do
      raw ← or_fail source not_read
      process_raw_config set_defaults parsers raw config

    -- The chain at a place comes from that of the source: its ID is neither missing nor the int 0, its type
    -- is neither missing nor the empty text, and its merge with the first chain of the configuration that
    -- has its ID is the result.
    abbrev pub IsMerged : List (ChainConfig F) → ChainConfig F → ChainConfig F → Type 0
    IsMerged configs chain out =
        (lookup id_key chain ≢ none)
        × (lookup id_key chain ≢ some (int (pos 0)))
        × (lookup type_key chain ≢ none)
        × (lookup type_key chain ≢ some (text []))
        × (config : ChainConfig F) × IsFirst (lookup id_key chain) configs config
        × (merge chain config ≡ ok out)

    IsMerged-iff :
        (configs : List (ChainConfig F)) (chain out : ChainConfig F)
        → IsMerged configs chain out ↔ (
            (lacks_id chain ≡ false)
            × (lacks_type chain ≡ false)
            × HoldsFor
                (find_chain_config (lookup id_key chain) configs)
                λ config. merge chain config ≡ ok out)
    IsMerged-iff configs chain out = step (find_chain_config (lookup id_key chain) configs) refl
      where
        id_given :
            (lacks_id chain ≡ false)
            ↔ ((lookup id_key chain ≢ none) × (lookup id_key chain ≢ some (int (pos 0))))
        id_given = lacks_id_iff chain (lookup id_key chain) refl

        type_given :
            (lacks_type chain ≡ false)
            ↔ ((lookup type_key chain ≢ none) × (lookup type_key chain ≢ some (text [])))
        type_given = lacks_type_iff chain (lookup type_key chain) refl

        step :
            (r : Result MergeError (ChainConfig F))
            → find_chain_config (lookup id_key chain) configs ≡ r
            → IsMerged configs chain out ↔ (
                (lacks_id chain ≡ false)
                × (lacks_type chain ≡ false)
                × HoldsFor r λ config. merge chain config ≡ ok out)
        step (err e) h = (
          λ m.
              absurd (
                ground (arith, h, IsFirst-find_chain_config (lookup id_key chain) configs m.4 m.5)),
          λ m. absurd m.2,
        )
        step (ok found) h = (
          λ m. (
            id_given.1 (m.0, m.1),
            type_given.1 (m.2, m.3),
            ground (arith, h, m.6, IsFirst-find_chain_config (lookup id_key chain) configs m.4 m.5),
          ),
          λ m.
              let (a, b) = id_given.0 m.0 in
              let (c, d) = type_given.0 m.1 in
              (
                a,
                b,
                c,
                d,
                found,
                find_chain_config-IsFirst (lookup id_key chain) configs found h,
                m.2,
              ),
        )

    abbrev pub AreMerged :
        List (ChainConfig F) → List (ChainConfig F) → List (ChainConfig F) → Type 0
    AreMerged configs [] [] = Unit {0}
    AreMerged configs [] (out ∷ outs) = ⊥
    AreMerged configs (chain ∷ chains) [] = ⊥
    AreMerged configs (chain ∷ chains) (out ∷ outs) =
        IsMerged configs chain out × AreMerged configs chains outs

    merge_chains_iff :
        (configs chains outs : List (ChainConfig F)) (i : ℕ)
        → (merge_chains configs i chains ≡ ok outs) ↔ AreMerged configs chains outs
    unfolding merge_chains
    merge_chains_iff configs [] [] i = (λ e. tt, λ m. refl)
    merge_chains_iff configs [] (out ∷ outs) i = (λ e. ground arith, λ m. absurd m)
    merge_chains_iff configs (chain ∷ chains) [] i = (λ e. ground (arith, e), λ m. absurd m)
    merge_chains_iff configs (chain ∷ chains) (out ∷ outs) i = (
      λ e.
          ground (
            arith,
            e,
            IsMerged-iff configs chain out,
            merge_chains_iff configs chains outs (suc i),
          ),
      λ m.
          ground (
            arith,
            m,
            IsMerged-iff configs chain out,
            merge_chains_iff configs chains outs (suc i),
          ),
    )

    -- Merging into a configuration succeeds with these chains exactly if the relayer's part is accepted and
    -- each chain of the source, in order, has an ID that is not the int 0 and a type that is not empty, and
    -- merges with the first chain of the configuration that has its ID. Without a configuration the chains are those of the source, unchecked.
    pub process_raw_config_iff :
        (set_defaults : RawConfig F → Result MergeError (RawConfig F)) (parsers : Parsers)
        (raw raw' : RawConfig F) (old c : Config F)
        → set_defaults raw ≡ ok raw'
        → ((process_raw_config set_defaults parsers raw (some old) ≡ ok c) ↔ (
            (new_relayer_config parsers raw'.relayer_config ≡ ok c.relayer_config)
            × AreMerged old.chain_configs raw'.chain_configs c.chain_configs))
          × ((process_raw_config set_defaults parsers raw none ≡ ok c) ↔ (
              (new_relayer_config parsers raw'.relayer_config ≡ ok c.relayer_config)
              × (c.chain_configs ≡ raw'.chain_configs)))
    unfolding process_raw_config
    process_raw_config_iff set_defaults parsers raw raw' old c d = (
      (
        λ e.
            ground (
              arith,
              e,
              d,
              merge_chains_iff old.chain_configs raw'.chain_configs c.chain_configs 0,
            ),
        λ m.
            ground (
              arith,
              m,
              d,
              merge_chains_iff old.chain_configs raw'.chain_configs c.chain_configs 0,
            ),
      ),
      (λ e. ground (arith, e, d), λ m. ground (arith, m, d)),
    )
