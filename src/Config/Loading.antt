-- ===== src/Config/Loading.antt =====
-- What is configured where the configuration loads (config/config.go).
use aliyun_ahas.Common.{
  Text, lit, text_eq, text_eq_self, true, false, some, ok, err, ◌≤◌, ◌<◌, ◌≡◌, ◌↔◌, arith,
}
use aliyun_ahas.Config.{
  Config, Surroundings, env_or, resolve_config_file_path, read_conf, load_conf_from_yaml_file,
  load_conf_from_system_env, or_default, fill, check_and_fill_default_values, after_file,
  init_config_from_file,
}

-- The configuration is refused exactly if the listening interval, or its default 5000 where it is 0, is
-- below the timeout, or its default 4000 where that is 0; accepted, the timeout is positive and at most the
-- listening interval, and neither was changed unless it was 0.
pub check_accepts_iff :
    (conf : Config)
    → let r = check_and_fill_default_values conf in
      ((r.0 ≡ ok tt) ↔ (
        or_default conf.data_source.timeout_ms 4000
        ≤ or_default conf.data_source.listen_interval_ms 5000))
      × (r.1 ≡ record conf {
        data_source = record {
          timeout_ms = or_default conf.data_source.timeout_ms 4000;
          listen_interval_ms = or_default conf.data_source.listen_interval_ms 5000;
        };
      })
      × (0 < r.1.data_source.timeout_ms)
unfolding check_and_fill_default_values fill
check_accepts_iff conf = ground arith

module _ (s : Surroundings) where
  -- Where `InitConfigFromFile` gives no error, the timeout of the data source is positive and at most its
  -- listening interval, and the license, the namespace and the environment are those of the environment
  -- variables wherever these are not blank.
  pub init_config_bounds :
      (p : Text) (conf conf' : Config)
      → init_config_from_file s p conf ≡ (ok tt, conf')
      → let loaded = (load_conf_from_yaml_file s (resolve_config_file_path s p) conf).1 in
        (0 < conf'.data_source.timeout_ms)
        × (conf'.data_source.timeout_ms ≤ conf'.data_source.listen_interval_ms)
        × (conf'.license ≡ env_or s (lit "AHAS_LICENSE") loaded.license)
        × (conf'.name_space ≡ env_or s (lit "AHAS_NAMESPACE") loaded.name_space)
        × (conf'.env ≡ env_or s (lit "AHAS_ENV") loaded.env)
  unfolding init_config_from_file after_file check_and_fill_default_values fill
      load_conf_from_system_env
  init_config_bounds p conf conf' e = ground arith

  -- With no path given, by the caller or by the two environment variables, and no default file, the
  -- configuration loads whatever yaml and the files are, and is the one before with the environment's
  -- values, filled up.
  pub default_file_optional :
      (p e : Text) (conf : Config)
      → s.is_blank p ≡ true
      → s.is_blank (s.get_env (lit "AHAS_CONFIG_FILE_PATH")) ≡ true
      → s.is_blank (s.get_env s.sentinel_file_key) ≡ true
      → s.stat s.default_filename ≡ some e
      → init_config_from_file s p conf
        ≡ check_and_fill_default_values (load_conf_from_system_env s conf)
  unfolding init_config_from_file after_file load_conf_from_yaml_file resolve_config_file_path
  default_file_optional p e conf blank no_ahas no_sentinel missing =
      let itself = text_eq_self s.default_filename in ground arith

  -- A file that is named, and is not the default one, has to be readable: an error in reading it is the
  -- result, and the configuration stays as it was.
  pub named_file_required :
      (p e : Text) (conf : Config)
      → s.is_blank p ≡ false
      → text_eq p s.default_filename ≡ false
      → s.read_file p ≡ err e
      → init_config_from_file s p conf ≡ (err e, conf)
  unfolding init_config_from_file after_file load_conf_from_yaml_file resolve_config_file_path
      read_conf
  named_file_required p e conf named other unreadable = ground arith
