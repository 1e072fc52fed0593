-- ===== src/Config.antt =====
-- config/config.go: the configuration, from its file and the environment. Files, environment variables,
-- yaml and the names that sentinel-golang gives are parameters.
pub mod Loading
mod Tests
use aliyun_ahas.Common.{
  ℕ, Text, lit, [], text_eq, Bool, true, false, Option, none, some, Result, ok, err, panic, diverge,
  ltb, ◌==◌, if◌then◌else◌,
}

-- `transport.Config`
pub record TransportConfig : Type 0 where
  pub timeout_ms : ℕ
  pub secure : Bool

-- `heartbeat.Config`
pub record HeartbeatConfig : Type 0 where
  pub period_ms : ℕ

-- `datasource.Config`
pub record DataSourceConfig : Type 0 where
  pub timeout_ms : ℕ
  pub listen_interval_ms : ℕ

pub record Config : Type 0 where
  pub license : Text
  pub name_space : Text
  pub env : Text
  pub transport : TransportConfig
  pub heartbeat : HeartbeatConfig
  pub data_source : DataSourceConfig

abbrev pub default_timeout_ms : ℕ
default_timeout_ms = 4000

abbrev pub default_listen_interval_ms : ℕ
default_listen_interval_ms = 5000

-- `NewDefaultConfig`
abbrev pub new_default_config : Config
new_default_config = record {
  license = [];
  name_space = lit "default";
  env = lit "prod";
  transport = record { timeout_ms = 3000; secure = true };
  heartbeat = record { period_ms = 5000 };
  data_source = record {
    timeout_ms = default_timeout_ms;
    listen_interval_ms = default_listen_interval_ms;
  };
}

-- `get_env` is `os.Getenv`, `is_blank` is `util.IsBlank`, `sentinel_file_key` and `default_filename` are
-- `ConfFilePathEnvKey` and `DefaultConfigFilename` of sentinel-golang, `stat` and `read_file` are of the
-- file system, and `unmarshal` reads a file over a configuration: its error, and the configuration.
pub record Surroundings : Type 0 where
  pub get_env : Text → Text
  pub is_blank : Text → Bool
  pub sentinel_file_key : Text
  pub default_filename : Text
  pub stat : Text → Option Text
  pub read_file : Text → Result Text
  pub unmarshal : Text → Config → Option Text × Config

module _ (s : Surroundings) where
  -- A value of the environment, or what stands where it is blank.
  abbrev pub env_or : Text → Text → Text
  env_or key value = if s.is_blank (s.get_env key) then value else s.get_env key

  -- `resolveConfigFilePath`
  unfoldable pub resolve_config_file_path : Text → Text
  resolve_config_file_path file_path =
      if s.is_blank file_path
      then env_or (lit "AHAS_CONFIG_FILE_PATH") (env_or s.sentinel_file_key s.default_filename)
      else file_path

  from_yaml : Option Text × Config → Result (Unit {0}) × Config
  from_yaml (none, conf) = (ok tt, conf)
  from_yaml (some e, conf) = (err e, conf)

  read_conf : Result Text → Config → Result (Unit {0}) × Config
  unfolding from_yaml
  read_conf (ok content) conf = from_yaml (s.unmarshal content conf)
  read_conf (err e) conf = (err e, conf)
  read_conf panic conf = (panic, conf)
  read_conf diverge conf = (diverge, conf)

  -- `os.Stat` of the default file gives an error.
  abbrev pub is_missing : Text → Bool
  is_missing file_path = elim (s.stat file_path) [ none ↦ false | some e ↦ true ]

  -- `loadConfFromYamlFile`
  unfoldable pub load_conf_from_yaml_file : Text → Config → Result (Unit {0}) × Config
  unfolding read_conf
  load_conf_from_yaml_file file_path conf =
      if text_eq file_path s.default_filename
      then (if is_missing file_path then (ok tt, conf) else read_conf (s.read_file file_path) conf)
      else read_conf (s.read_file file_path) conf

  -- `loadConfFromSystemEnv`
  unfoldable pub load_conf_from_system_env : Config → Config
  load_conf_from_system_env conf = record conf {
    license = env_or (lit "AHAS_LICENSE") conf.license;
    name_space = env_or (lit "AHAS_NAMESPACE") conf.name_space;
    env = env_or (lit "AHAS_ENV") conf.env;
  }

-- `if n == 0 { n = d }`
abbrev pub or_default : ℕ → ℕ → ℕ
or_default n d = if n == 0 then d else n

fill : DataSourceConfig → DataSourceConfig
fill d = record {
  timeout_ms = or_default d.timeout_ms default_timeout_ms;
  listen_interval_ms = or_default d.listen_interval_ms default_listen_interval_ms;
}

-- `checkAndFillDefaultValues`
unfoldable pub check_and_fill_default_values : Config → Result (Unit {0}) × Config
unfolding fill
check_and_fill_default_values conf =
    let d = fill conf.data_source in
    if ltb d.listen_interval_ms d.timeout_ms
    then (
      err (lit "DataSource.ListenIntervalMs should be greater than DataSource.TimeoutMs"),
      record conf { data_source = d },
    )
    else (ok tt, record conf { data_source = d })

module _ (s : Surroundings) where
  after_file : Result (Unit {0}) × Config → Result (Unit {0}) × Config
  after_file (ok _, conf) = check_and_fill_default_values (load_conf_from_system_env s conf)
  after_file (err e, conf) = (err e, conf)
  after_file (panic, conf) = (panic, conf)
  after_file (diverge, conf) = (diverge, conf)

  -- `InitConfigFromFile`: the result, and the configuration it leaves.
  unfoldable pub init_config_from_file : Text → Config → Result (Unit {0}) × Config
  unfolding after_file
  init_config_from_file p conf =
      after_file (load_conf_from_yaml_file s (resolve_config_file_path s p) conf)
