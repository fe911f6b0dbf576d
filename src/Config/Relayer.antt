-- ===== src/Config/Relayer.antt =====
-- config/relayer/config.go: `NewRelayerConfig`. zerolog.ParseLevel and time.ParseDuration are parameters.
use sprinter_signing.Base.{
  ℕ, ◌<◌, ◌≡◌, ◌≢◌, not, Option, some, [], arith, Result, ok, err, ◌>>=◌, ◌>>◌, guard, or_fail,
}
use sprinter_signing.Base.Int.{ℤ, pos}
use sprinter_signing.Base.Text.{Text, text_eq, text_eq_iff}
use sprinter_signing.Comm.Transport.Gate.{Codec, parse_int_bits}
use sprinter_signing.Config.Ports.{ConfigError, parse_port}

pub record TopologyConfiguration : Type 0 where
  pub encryption_key : Text
  pub url : Text
  pub path : Text

pub record CoinmarketcapConfig : Type 0 where
  pub url : Text
  pub api_key : Text

pub record SolverConfig : Type 0 where
  pub secret_key : Text
  pub access_key : Text

pub record RawMpcRelayerConfig : Type 0 where
  pub keyshare_path : Text
  pub frost_keyshare_path : Text
  pub key : Text
  pub port : Text
  pub topology_configuration : TopologyConfiguration
  pub comm_health_check_interval : Text

pub record RawBullyConfig : Type 0 where
  pub ping_wait_time : Text
  pub ping_back_off : Text
  pub ping_interval : Text
  pub election_wait_time : Text
  pub bully_wait_time : Text

pub record RawRelayerConfig : Type 0 where
  pub open_telemetry_collector_url : Text
  pub log_level : Text
  pub log_file : Text
  pub health_port : Text
  pub env : Text
  pub id : Text
  pub mpc_config : RawMpcRelayerConfig
  pub bully_config : RawBullyConfig
  pub coinmarketcap_config : CoinmarketcapConfig
  pub solver_config : SolverConfig
  pub api_addr : Text

-- A duration is a number of nanoseconds.
pub record MpcRelayerConfig : Type 0 where
  pub topology_configuration : TopologyConfiguration
  pub port : ℕ
  pub keyshare_path : Text
  pub frost_keyshare_path : Text
  pub key : Text
  pub comm_health_check_interval : ℤ

pub record BullyConfig : Type 0 where
  pub ping_wait_time : ℤ
  pub ping_back_off : ℤ
  pub ping_interval : ℤ
  pub election_wait_time : ℤ
  pub bully_wait_time : ℤ

pub record RelayerConfig : Type 0 where
  pub open_telemetry_collector_url : Text
  pub log_level : ℕ
  pub log_file : Text
  pub health_port : ℕ
  pub env : Text
  pub id : Text
  pub mpc_config : MpcRelayerConfig
  pub bully_config : BullyConfig
  pub coinmarketcap_config : CoinmarketcapConfig
  pub solver_config : SolverConfig
  pub api_addr : Text

pub data RelayerConfigError : Type 0 where
  no_encryption_key no_url no_path : RelayerConfigError
  unknown_log_level : Text → RelayerConfigError
  health_port_error mpc_port_error : ConfigError → RelayerConfigError
  unparsed_health_check_interval : RelayerConfigError
  unparsed_election_wait unparsed_ping_wait unparsed_ping_interval : RelayerConfigError
  unparsed_ping_back_off unparsed_bully_wait : RelayerConfigError

pub record Parsers : Type 0 where
  pub codec : Codec
  pub parse_level : Text → Option ℕ
  pub parse_duration : Text → Option ℤ

-- `Validate`
unfoldable pub validate : RawRelayerConfig → Result RelayerConfigError (Unit {0})
validate raw = do
  guard (not (text_eq raw.mpc_config.topology_configuration.encryption_key [])) no_encryption_key
  guard (not (text_eq raw.mpc_config.topology_configuration.url [])) no_url
  guard (not (text_eq raw.mpc_config.topology_configuration.path [])) no_path

abbrev pub port_of :
    {A : Type 0}
    → Result ConfigError A
    → (ConfigError → RelayerConfigError)
    → Result RelayerConfigError A
port_of (ok p) as_error = ok p
port_of (err e) as_error = err (as_error e)

-- `parseMpcConfig`
unfoldable pub parse_mpc_config :
    Parsers → RawRelayerConfig → Result RelayerConfigError MpcRelayerConfig
unfolding parse_port
parse_mpc_config parsers raw = do
  port ← port_of (parse_port parsers.codec raw.mpc_config.port) mpc_port_error
  interval ←
      or_fail (parsers.parse_duration raw.mpc_config.comm_health_check_interval)
        unparsed_health_check_interval
  ok (record {
    topology_configuration = raw.mpc_config.topology_configuration;
    port = port;
    keyshare_path = raw.mpc_config.keyshare_path;
    frost_keyshare_path = raw.mpc_config.frost_keyshare_path;
    key = raw.mpc_config.key;
    comm_health_check_interval = interval;
  })

-- `parseBullyConfig`
unfoldable pub parse_bully_config :
    Parsers → RawRelayerConfig → Result RelayerConfigError BullyConfig
parse_bully_config parsers raw = do
  election_wait_time ←
      or_fail (parsers.parse_duration raw.bully_config.election_wait_time) unparsed_election_wait
  ping_wait_time ←
      or_fail (parsers.parse_duration raw.bully_config.ping_wait_time) unparsed_ping_wait
  ping_interval ←
      or_fail (parsers.parse_duration raw.bully_config.ping_interval) unparsed_ping_interval
  ping_back_off ←
      or_fail (parsers.parse_duration raw.bully_config.ping_back_off) unparsed_ping_back_off
  bully_wait_time ←
      or_fail (parsers.parse_duration raw.bully_config.bully_wait_time) unparsed_bully_wait
  ok (record {
    ping_wait_time = ping_wait_time;
    ping_back_off = ping_back_off;
    ping_interval = ping_interval;
    election_wait_time = election_wait_time;
    bully_wait_time = bully_wait_time;
  })

unfoldable pub new_relayer_config :
    Parsers → RawRelayerConfig → Result RelayerConfigError RelayerConfig
unfolding validate parse_port parse_mpc_config parse_bully_config
new_relayer_config parsers raw = do
  validate raw
  log_level ← or_fail (parsers.parse_level raw.log_level) (unknown_log_level raw.log_level)
  health_port ← port_of (parse_port parsers.codec raw.health_port) health_port_error
  mpc_config ← parse_mpc_config parsers raw
  bully_config ← parse_bully_config parsers raw
  ok (record {
    open_telemetry_collector_url = raw.open_telemetry_collector_url;
    log_level = log_level;
    log_file = raw.log_file;
    health_port = health_port;
    env = raw.env;
    id = raw.id;
    mpc_config = mpc_config;
    bully_config = bully_config;
    coinmarketcap_config = raw.coinmarketcap_config;
    solver_config = raw.solver_config;
    api_addr = raw.api_addr;
  })

-- `p` is the port that a text writes.
abbrev pub IsPort : Codec → Text → ℕ → Type 0
IsPort codec s p = (codec.parse_int s ≡ some (pos p)) × (p < 32768)

parse_port-IsPort :
    (codec : Codec) (s : Text) (p : ℕ) → parse_port codec s ≡ ok p → IsPort codec s p
unfolding parse_port parse_int_bits
parse_port-IsPort codec s p h = ground (arith, h)

-- An accepted configuration has the topology's key, URL and path, none of them empty; both ports are
-- the numbers that their texts write, below 32768; and each duration is the one that its own text writes.
pub new_relayer_config_lem :
    (parsers : Parsers) (raw : RawRelayerConfig) (c : RelayerConfig)
    → new_relayer_config parsers raw ≡ ok c
    → let mpc = raw.mpc_config in
      let bully = raw.bully_config in
      (c.mpc_config.topology_configuration ≡ mpc.topology_configuration)
      × (mpc.topology_configuration.encryption_key ≢ [])
      × (mpc.topology_configuration.url ≢ [])
      × (mpc.topology_configuration.path ≢ [])
      × IsPort parsers.codec raw.health_port c.health_port
      × IsPort parsers.codec mpc.port c.mpc_config.port
      × (parsers.parse_duration mpc.comm_health_check_interval
          ≡ some c.mpc_config.comm_health_check_interval)
      × (parsers.parse_duration bully.ping_wait_time ≡ some c.bully_config.ping_wait_time)
      × (parsers.parse_duration bully.ping_back_off ≡ some c.bully_config.ping_back_off)
      × (parsers.parse_duration bully.ping_interval ≡ some c.bully_config.ping_interval)
      × (parsers.parse_duration bully.election_wait_time ≡ some c.bully_config.election_wait_time)
      × (parsers.parse_duration bully.bully_wait_time ≡ some c.bully_config.bully_wait_time)
unfolding new_relayer_config validate parse_mpc_config parse_bully_config
new_relayer_config_lem parsers raw c h =
    let t = raw.mpc_config.topology_configuration in
    ground (
      arith,
      h,
      text_eq_iff t.encryption_key [],
      text_eq_iff t.url [],
      text_eq_iff t.path [],
      parse_port-IsPort parsers.codec raw.health_port,
      parse_port-IsPort parsers.codec raw.mpc_config.port,
    )
