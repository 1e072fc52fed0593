-- ===== src/Startup/Tests.antt =====
-- A start with a license, on a machine with an address, that connects.
use aliyun_ahas.Common.{
  ◌+◌, ℕ, lit, text_eq, is_empty, unsigned_value, bounded_value, [], ◌++◌, true, false, none, some,
  Result, ok, err, ◌≡◌, refl, if◌then◌else◌,
}
use aliyun_ahas.Service.{start, is_stopped}
use aliyun_ahas.Config.{
  new_default_config, Surroundings, init_config_from_file, load_conf_from_yaml_file,
  load_conf_from_system_env, check_and_fill_default_values, resolve_config_file_path,
}
use aliyun_ahas.Meta
use aliyun_ahas.Meta.{metadata, Machine, init_metadata, endpoint_for}
use aliyun_ahas.Aliyun.{get_failed, Files, download, get_acm_endpoint, get_ahas_proxy_tls_endpoint}
use aliyun_ahas.Tools.Constants.{repositories, init_constant}
use aliyun_ahas.Gateway.Ip.{atoi_bits}
use aliyun_ahas.Gateway.Client.{check_or_download_cert, init}
use aliyun_ahas.Transport.Response.{Response}
use aliyun_ahas.Transport.Request.{Request}
use aliyun_ahas.Transport.Interceptor.{parses}
use aliyun_ahas.Transport.Handler.{Json}
use aliyun_ahas.Transport.Invoker.{invoke}
use aliyun_ahas.Transport.Connect.{handle_connect_response}
use aliyun_ahas.Transport.Samples.{codec, keys, json, client, connected, save_fine}
use aliyun_ahas.Transport.Start.{new_transport, agw_config, start_transport}
use aliyun_ahas.Transport.Start.Samples.{no_handlers, fresh, same_text}
use aliyun_ahas.Heartbeat.{new_heartbeat}
use aliyun_ahas.Startup.{
  Process, Outside, init_ahas_from_file, init_steps, outer, load_config, load_metadata,
  start_channel, set_constant, check_acm, make_transport, cert, connect_transport, finish_start,
}
use aliyun_ahas.Startup.DataSource.{logged, Acm, initialize_acm_data_source}
use aliyun_ahas.Startup.Listens.{registered, listens_after_start}
use aliyun_ahas.Startup.Ready.{IsReady, init_ahas_from_file-IsReady}

abbrev surroundings : Surroundings
surroundings = record {
  get_env = λ key. if text_eq key (lit "AHAS_LICENSE") then lit "license" else [];
  is_blank = is_empty;
  sentinel_file_key = lit "SENTINEL_CONFIG_FILE_PATH";
  default_filename = lit "sentinel.yml";
  stat = λ path. some (lit "no such file");
  read_file = λ path. ok path;
  unmarshal = λ content conf. (none, conf);
}

abbrev machine : Machine ℕ
machine = record {
  http = record { http_get = λ url w. (get_failed (lit "no route"), w); sleep = λ w. w };
  process_id = 7;
  os_hostname = ok (lit "host");
  private_ip = ok (lit "10.0.0.1");
}

abbrev files : Files ℕ
files = record {
  create = λ path w. (ok tt, w);
  get_status = λ url w. (ok 200, w);
  copy_body = λ w. (ok tt, w);
}

abbrev connecting : Json
connecting = record json { unmarshal_response = λ s. ok (connected true) }

abbrev no_answer : Request → Result Response
no_answer r = err (lit "none")

abbrev outside : Outside ℕ
outside = record {
  sentinel_init = λ filename w. (ok tt, w);
  logger_init = λ w. (ok tt, w);
  surroundings = surroundings;
  machine = machine;
  files = files;
  cert_path = lit "/tmp/.server.cert";
  cert_exists = λ w. false;
  join_path = λ path. path ++ lit "/cert/sChat.pem";
  atoi_error = same_text;
  json = connecting;
  call = client;
  save = save_fine;
  app = record { app_name = lit "app"; app_type = lit "0"; cpu_num = 4 };
  new_id = λ w. (lit "id", w);
  codec = codec;
  keys = keys;
  now = 5000000;
  resource_nodes = no_answer;
  metrics = no_answer;
  recovered = lit "panic";
}

abbrev process : Process
process = record {
  config = new_default_config;
  metadata = metadata;
  channel = none;
  repositories = repositories;
  client = fresh;
  handlers = no_handlers;
  transport = none;
  heartbeat = none;
}

starts : (init_ahas_from_file outside [] (process, 0)).0 ≡ ok tt
unfolding init_ahas_from_file init_config_from_file load_conf_from_yaml_file
    load_conf_from_system_env check_and_fill_default_values resolve_config_file_path text_eq
    init_metadata endpoint_for get_ahas_proxy_tls_endpoint get_acm_endpoint start is_stopped
    check_or_download_cert init new_transport agw_config parses atoi_bits bounded_value
    unsigned_value start_transport invoke handle_connect_response Meta.set_tid init_steps outer
    load_config load_metadata start_channel set_constant check_acm make_transport cert init_constant
    download connect_transport finish_start new_heartbeat
starts = refl

init_ahas_from_file-IsReady_example :
    IsReady outside [] (init_ahas_from_file outside [] (process, 0)).1.0
init_ahas_from_file-IsReady_example = init_ahas_from_file-IsReady outside [] process 0 refl starts

-- The world counts the listeners.
abbrev acm : Acm ℕ
acm = record {
  create = λ conf tid host w. (ok tt, w);
  listen = λ id change w. (ok tt, w + 1);
  app_name = lit "app";
}

listens_after_start_example :
    let s = (init_ahas_from_file outside [] (process, 0)).1 in
    initialize_acm_data_source acm (lit "acm.aliyun.com") s
    ≡ logged (registered acm (lit "acm.aliyun.com") s)
listens_after_start_example =
    listens_after_start acm outside [] (lit "acm.aliyun.com") process 0 refl refl starts
