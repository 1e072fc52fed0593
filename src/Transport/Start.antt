-- ===== src/Transport/Start.antt =====
-- transport/transport.go: how the transport is made, connects, and invokes. The gateway's client, json, the
-- file of the keys and the clock are parameters.
pub mod Made
pub mod Connected
pub mod Registered
pub mod Samples
mod Tests
use aliyun_ahas.Common.{
  ℕ, ◌*◌, ◌%◌, ◌^◌, Text, lit, is_empty, text_eq, decimal, List, [], ◌∷◌, ◌++◌, Bool, true, false,
  Option, none, some, Result, ok, err, panic, diverge, ◌==◌, if◌then◌else◌,
}
use aliyun_ahas.Common.Actions.{Act}
use aliyun_ahas.Config.{TransportConfig, or_default}
use aliyun_ahas.Meta.{Meta}
use aliyun_ahas.Tools.Auth.{Keys}
use aliyun_ahas.Gateway.Ip.{atoi_bits}
use aliyun_ahas.Gateway.Client.{AgwConfig, AgwClient, init}
use aliyun_ahas.Gateway.Reader.{Handlers, add_handler}
use aliyun_ahas.Transport.Response.{Response}
use aliyun_ahas.Transport.Request.{Request, Uri, add_param, new_request, new_uri}
use aliyun_ahas.Transport.Interceptor.{Codec, RequestInterceptor, build_interceptor, parses}
use aliyun_ahas.Transport.Handler.{Json, AgwRequestHandler, agw_handle}
use aliyun_ahas.Transport.Invoker.{Client, Returned, invoke, identify}
use aliyun_ahas.Transport.Connect.{handle_connect_response}

-- `registered` is the map of the gateway's handlers, which the client holds for all.
pub record Transport : Type 0 where
  pub config : TransportConfig
  pub client : AgwClient
  pub handlers : Text → Option AgwRequestHandler
  pub registered : Handlers

-- `strings.SplitN(s, ":", 2)`: the part before the first colon, and the part behind it.
abbrev pub split_n : Text → Text × Option Text
split_n [] = ([], none)
split_n (c ∷ s) =
    let (host, port) = split_n s in if c == b':' then ([], some s) else (c ∷ host, port)

abbrev pub go_sdk : Text
go_sdk = lit "GO_SDK"

-- The configuration of the client. TLS is on whatever `Secure` says.
unfoldable pub agw_config : TransportConfig → Meta → Text → Text → AgwConfig
agw_config conf m host port = record {
  client_vpc_id = m.vpc_id;
  client_ip = m.ip;
  client_process_flag = go_sdk ++ (lit ":" ++ (m.ip ++ (lit ":" ++ m.pid)));
  gateway_ip = host;
  gateway_port = atoi_bits port % 2 ^ 32;
  client_env = m.deploy_env;
  client_region_id = m.region_id;
  tls_flag = true;
  timeout = conf.timeout_ms * 1000000 % 2 ^ 64;
}

module _ {W : Type 0} (cert : Act W (Unit {0})) (atoi_error : Text → Text) where
  -- The end of `New`, for the result of `Init`.
  made :
      TransportConfig
      → Handlers
      → Result (Unit {0}) × AgwClient × W
      → Result Transport × AgwClient × W
  made conf registered (err e, c, w) = (err e, c, w)
  made conf registered (panic, c, w) = (panic, c, w)
  made conf registered (diverge, c, w) = (diverge, c, w)
  made conf registered (ok _, c, w) = (
    ok (record { config = conf; client = c; handlers = λ name. none; registered = registered }),
    c,
    w,
  )

  at_port :
      TransportConfig
      → Meta
      → Handlers
      → AgwClient
      → W
      → Text × Option Text
      → Result Transport × AgwClient × W
  unfolding made
  at_port conf m registered c w (host, none) = (panic, c, w)
  at_port conf m registered c w (host, some port) =
      if parses port
      then made conf registered (init cert (agw_config conf m host port) c w)
      else (err (atoi_error port), c, w)

  -- `New`, with none for nil; `c` is the one client of the process, and `registered` its handlers.
  unfoldable pub new_transport :
      Option TransportConfig
      → Option Meta
      → Handlers
      → AgwClient
      → W
      → Result Transport × AgwClient × W
  unfolding at_port
  new_transport none m registered c w = (err (lit "nil transport config"), c, w)
  new_transport (some conf) none registered c w = (err (lit "nil metadata"), c, w)
  new_transport (some conf) (some m) registered c w =
      at_port (record conf { timeout_ms = or_default conf.timeout_ms 3000 }) m registered c w
        (split_n m.ahas_endpoint)

-- The gateway's handler for a handler of the transport, outside debugging.
abbrev pub gateway_handler : Json → AgwRequestHandler → Text → Result Text
gateway_handler json h request = agw_handle json false h request

-- `RegisterHandler`, outside debugging.
unfoldable pub register_handler : Json → Text → AgwRequestHandler → Transport → Transport
register_handler json name h t = elim (t.handlers name) [
  | some first ↦ t
  | none ↦
      let (e, registered) = add_handler name (some (gateway_handler json h)) t.registered in
      record t {
        handlers = (λ k. if text_eq name k then some h else t.handlers k);
        registered = registered;
      }
]

-- What `connect` takes from sentinel-golang and the runtime.
pub record App : Type 0 where
  pub app_name : Text
  pub app_type : Text
  pub cpu_num : ℕ

abbrev add_identity : Meta → Request → Request
add_identity m r =
    if is_empty m.uid then add_param r (lit "ak") m.license else add_param r (lit "uid") m.uid

-- The request of `connect`.
unfoldable pub connect_request : App → Meta → Request
connect_request app m =
    let place = add_param (add_param new_request (lit "vpcId") m.vpc_id) (lit "ip") m.ip in
    let process = add_param (add_param place (lit "pid") m.pid) (lit "type") go_sdk in
    let name =
      add_param (add_param process (lit "appName") app.app_name) (lit "appType") app.app_type in
    let identity = add_identity m (add_param name (lit "namespace") m.name_space) in
    let device =
      add_param (add_param identity (lit "deviceId") m.instance_id) (lit "deviceType")
        (decimal 0) in
    let version = add_param (add_param device (lit "v") m.version) (lit "hostIp") m.ip in
    add_param version (lit "cpuNum") (decimal app.cpu_num)

-- The uri for a name of the service Topology.
abbrev pub topology_uri : Meta → Text → Uri
topology_uri m name = new_uri m.vpc_id m.ip m.pid go_sdk (lit "Topology") name

module _ {W : Type 0} (json : Json) (client : Client W)
    (save : Text → Text → W → Option Text × W) where
  connected : Meta → Result Returned × W → Result (Unit {0}) × Meta × W
  connected m (ok (response, some e), w) = (err e, m, w)
  connected m (ok (some response, none), w) = handle_connect_response save response m w
  connected m (ok (none, none), w) = (panic, m, w)
  connected m (err e, w) = (err e, m, w)
  connected m (panic, w) = (panic, m, w)
  connected m (diverge, w) = (diverge, m, w)

  -- `Start`, which is `connect`; the invoker has no interceptor, and `request_id` is the new UUID.
  unfoldable pub start_transport : App → Text → Meta → W → Result (Unit {0}) × Meta × W
  unfolding connected
  start_transport app request_id m w = connected m (
      invoke json client none request_id (topology_uri m (lit "connect")) (connect_request app m) w)

  -- `Invoke` of Transport, by the invoker with the interceptors of the keys and the clock.
  unfoldable pub invoke_transport :
      Codec → Keys → ℕ → Text → Meta → Uri → Request → W → Result Returned × W
  invoke_transport c keys now request_id m uri r w =
      invoke json client (some (build_interceptor c keys now)) request_id uri
        (identify m.pid m.uid m.cid go_sdk m.version r) w
