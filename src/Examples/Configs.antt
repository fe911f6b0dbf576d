-- ===== src/Examples/Configs.antt =====
-- A relayer's configuration with one chain, from its texts to the registered chain.
use sprinter_signing.Base.{
  ℕ, ◌≡◌, ◌≢◌, ◌↔◌, refl, true, false, none, some, List, [], ◌∷◌, Result, ok, length, ◌==◌,
}
use sprinter_signing.Base.Dict.{nat_key}
use sprinter_signing.Base.Int.{ℤ, pos}
use sprinter_signing.Base.Text.{bytes, text_eq, text_key}
use sprinter_signing.Comm.Transport.Gate.{Codec, parse_int_bits}
use sprinter_signing.Config.Ports.{parse_port}
use sprinter_signing.Config.Relayer.{
  Parsers, RawRelayerConfig, RelayerConfig, IsPort, new_relayer_config, new_relayer_config_lem,
  validate, parse_mpc_config, parse_bully_config,
}
use sprinter_signing.Config.Merge.{
  Floats, Value, ChainConfig, RawConfig, Config, MergeError, id_key, type_key, AreMerged,
  process_raw_config, process_raw_config_iff,
}
use sprinter_signing.Config.Watcher.{
  tick, start_config_watcher, SeesChange, start_config_watcher_iff,
}
use sprinter_signing.App.Contracts.{evm_type}

abbrev codec : Codec
codec = record {
  addr_info_from_string = λ a. none;
  parse_int = λ t. some (pos (length t));
  decode_hex = λ t. some t;
  encode_hex = λ t. t;
  sha256 = λ t. t;
  decrypt = λ t. t;
  unmarshal = λ t. none;
}

-- A number is written as so many bytes.
abbrev parsers : Parsers
parsers = record {
  codec = codec;
  parse_level = λ t. some 1;
  parse_duration = λ t. some (pos (length t));
}

abbrev raw : RawRelayerConfig
raw = record {
  open_telemetry_collector_url = [];
  log_level = bytes "info";
  log_file = bytes "out.log";
  health_port = 1 ∷ 1 ∷ [];
  env = [];
  id = [];
  mpc_config = record {
    keyshare_path = [];
    frost_keyshare_path = [];
    key = [];
    port = 1 ∷ [];
    topology_configuration = record { encryption_key = 1 ∷ []; url = 2 ∷ []; path = 3 ∷ [] };
    comm_health_check_interval = 1 ∷ [];
  };
  bully_config = record {
    ping_wait_time = 1 ∷ [];
    ping_back_off = 1 ∷ 1 ∷ [];
    ping_interval = [];
    election_wait_time = 1 ∷ [];
    bully_wait_time = 1 ∷ [];
  };
  coinmarketcap_config = record { url = []; api_key = [] };
  solver_config = record { secret_key = []; access_key = [] };
  api_addr = [];
}

abbrev relayer : RelayerConfig
relayer = record {
  open_telemetry_collector_url = [];
  log_level = 1;
  log_file = bytes "out.log";
  health_port = 2;
  env = [];
  id = [];
  mpc_config = record {
    topology_configuration = record { encryption_key = 1 ∷ []; url = 2 ∷ []; path = 3 ∷ [] };
    port = 1;
    keyshare_path = [];
    frost_keyshare_path = [];
    key = [];
    comm_health_check_interval = pos 1;
  };
  bully_config = record {
    ping_wait_time = pos 1;
    ping_back_off = pos 2;
    ping_interval = pos 0;
    election_wait_time = pos 1;
    bully_wait_time = pos 1;
  };
  coinmarketcap_config = record { url = []; api_key = [] };
  solver_config = record { secret_key = []; access_key = [] };
  api_addr = [];
}

new_relayer_config_example :
    let mpc = raw.mpc_config in
    let bully = raw.bully_config in
    (relayer.mpc_config.topology_configuration ≡ mpc.topology_configuration)
    × (mpc.topology_configuration.encryption_key ≢ [])
    × (mpc.topology_configuration.url ≢ [])
    × (mpc.topology_configuration.path ≢ [])
    × IsPort codec raw.health_port 2
    × IsPort codec mpc.port 1
    × (parsers.parse_duration mpc.comm_health_check_interval ≡ some (pos 1))
    × (parsers.parse_duration bully.ping_wait_time ≡ some (pos 1))
    × (parsers.parse_duration bully.ping_back_off ≡ some (pos 2))
    × (parsers.parse_duration bully.ping_interval ≡ some (pos 0))
    × (parsers.parse_duration bully.election_wait_time ≡ some (pos 1))
    × (parsers.parse_duration bully.bully_wait_time ≡ some (pos 1))
unfolding new_relayer_config validate parse_mpc_config parse_bully_config parse_port parse_int_bits
    text_eq
new_relayer_config_example = new_relayer_config_lem parsers raw relayer refl

abbrev whole_floats : Floats ℤ
whole_floats = record {
  of_int = λ z. z;
  float_eq =
      λ a b. elim a [ pos m ↦ elim b [ pos n ↦ m == n | ℤ.negsuc n ↦ false ] | ℤ.negsuc m ↦ false ];
}

abbrev chain_entry : ChainConfig ℤ
chain_entry = (id_key, Value.float (pos 7)) ∷ (type_key, Value.text evm_type) ∷ []

abbrev known_chain : ChainConfig ℤ
known_chain = (id_key, Value.int (pos 7)) ∷ []

abbrev keep_first : ChainConfig ℤ → ChainConfig ℤ → Result MergeError (ChainConfig ℤ)
keep_first a b = ok a

abbrev as_is : RawConfig ℤ → Result MergeError (RawConfig ℤ)
as_is r = ok r

abbrev raw_config : RawConfig ℤ
raw_config = record { relayer_config = raw; chain_configs = chain_entry ∷ [] }

abbrev old_config : Config ℤ
old_config = record { relayer_config = relayer; chain_configs = known_chain ∷ [] }

process_raw_config_example :
    ((process_raw_config whole_floats keep_first as_is parsers raw_config (some old_config)
        ≡ ok old_config)
      ↔ ((new_relayer_config parsers raw ≡ ok relayer)
          × AreMerged whole_floats keep_first
              (known_chain ∷ [])
              (chain_entry ∷ [])
              (known_chain ∷ [])))
    × ((process_raw_config whole_floats keep_first as_is parsers raw_config none ≡ ok old_config)
        ↔ ((new_relayer_config parsers raw ≡ ok relayer)
            × (◌≡◌ {A = List (ChainConfig ℤ)} (known_chain ∷ []) (chain_entry ∷ []))))
process_raw_config_example =
    process_raw_config_iff whole_floats keep_first as_is parsers raw_config raw_config old_config
      old_config refl

start_config_watcher_example :
    (start_config_watcher {C = ℕ}
        (λ c. some (c ∷ []))
        (λ t. t)
        1
        (tick none ∷ tick (some 1) ∷ tick (some 2) ∷ [])
      ≡ ok true)
    ↔ SeesChange
        (λ c. some (c ∷ []))
        (λ t. t)
        (1 ∷ [])
        (tick none ∷ tick (some 1) ∷ tick (some 2) ∷ [])
start_config_watcher_example =
    start_config_watcher_iff (λ c. some (c ∷ [])) (λ t. t) (λ s t e. e) 1 (1 ∷ [])
      (tick none ∷ tick (some 1) ∷ tick (some 2) ∷ []) refl
