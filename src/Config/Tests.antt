-- ===== src/Config/Tests.antt =====
-- The configuration on concrete files and variables.
use aliyun_ahas.Common.{
  lit, [], is_empty, text_eq, none, some, ok, ◌≡◌, ◌≤◌, ◌<◌, refl, if◌then◌else◌,
}
use aliyun_ahas.Config.{
  Config, new_default_config, Surroundings, resolve_config_file_path, load_conf_from_yaml_file,
  load_conf_from_system_env, check_and_fill_default_values, init_config_from_file,
}
use aliyun_ahas.Config.Loading.{init_config_bounds}

-- The file gives a license and no timeouts; the environment another license.
abbrev surroundings : Surroundings
surroundings = record {
  get_env = λ key. if text_eq key (lit "AHAS_LICENSE") then lit "license" else [];
  is_blank = is_empty;
  sentinel_file_key = lit "SENTINEL_CONFIG_FILE_PATH";
  default_filename = lit "sentinel.yml";
  stat = λ path. some (lit "no such file");
  read_file = λ path. ok path;
  unmarshal = λ content conf. (
    none,
    record conf {
      license = content;
      data_source = record { timeout_ms = 0; listen_interval_ms = 0 };
    },
  );
}

abbrev loaded : Config
loaded = record new_default_config { license = lit "license" }

init_config_bounds_example :
    (0 < 4000)
    × (4000 ≤ 5000)
    × (lit "license" ≡ lit "license")
    × (lit "default" ≡ lit "default")
    × (lit "prod" ≡ lit "prod")
unfolding init_config_from_file load_conf_from_yaml_file load_conf_from_system_env
    check_and_fill_default_values resolve_config_file_path text_eq
init_config_bounds_example =
    init_config_bounds surroundings (lit "ahas.yml") new_default_config loaded refl
