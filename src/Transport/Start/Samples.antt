-- ===== src/Transport/Start/Samples.antt =====
-- A client that is not initialised, and the transport that is made of it for a public endpoint.
use aliyun_ahas.Common.{ℕ, Text, lit, [], true, false, none, ok}
use aliyun_ahas.Common.Actions.{Act}
use aliyun_ahas.Config.{TransportConfig}
use aliyun_ahas.Meta.{Meta, metadata}
use aliyun_ahas.Gateway.Client.{AgwConfig, AgwClient}
use aliyun_ahas.Gateway.Reader.{Handlers}
use aliyun_ahas.Transport.Start.{Transport}

abbrev pub public_meta : Meta
public_meta = record metadata {
  region_id = lit "cn-public";
  vpc_id = lit "license";
  ip = lit "10.0.0.1";
  pid = lit "7";
  ahas_endpoint = lit "ahas-proxy.aliyuncs.com:8848";
}

abbrev pub insecure : TransportConfig
insecure = record { timeout_ms = 0; secure = false }

abbrev pub has_cert : Act ℕ (Unit {0})
has_cert w = (ok tt, w)

abbrev pub same_text : Text → Text
same_text s = s

abbrev pub no_handlers : Handlers
no_handlers name = none

abbrev pub no_config : AgwConfig
no_config = record {
  client_vpc_id = [];
  client_ip = [];
  client_process_flag = [];
  gateway_ip = [];
  gateway_port = 0;
  client_env = [];
  client_region_id = [];
  tls_flag = false;
  timeout = 0;
}

abbrev pub fresh : AgwClient
fresh = record {
  config = no_config;
  initialized = false;
  timeout = 0;
  once = false;
  heartbeats = 0;
}

abbrev pub public_transport : Transport
public_transport = record {
  config = record insecure { timeout_ms = 3000 };
  client = record {
    config = record {
      client_vpc_id = lit "license";
      client_ip = lit "10.0.0.1";
      client_process_flag = lit "GO_SDK:10.0.0.1:7";
      gateway_ip = lit "ahas-proxy.aliyuncs.com";
      gateway_port = 8848;
      client_env = [];
      client_region_id = lit "cn-public";
      tls_flag = true;
      timeout = 3000000000;
    };
    initialized = true;
    timeout = 3000;
    once = true;
    heartbeats = 1;
  };
  handlers = λ name. none;
  registered = no_handlers;
}
