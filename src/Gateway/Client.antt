-- ===== src/Gateway/Client.antt =====
-- gateway/gateway.go, gateway/id_generator.go: the client of the gateway.
pub mod Heartbeats
pub mod Init
pub mod Calls
pub mod Request
mod Tests
use aliyun_ahas.Common.{
  ℕ, zero, suc, ◌+◌, ◌-◌, ltb, ◌/◌, ◌%◌, ◌^◌, Text, lit, [], ◌++◌, is_empty, text_eq, contains,
  decimal, Bool, true, false, not, Option, none, some, Result, ok, err, panic, diverge, ◌==◌,
  if◌then◌else◌,
}
use aliyun_ahas.Common.Actions.{Act}
use aliyun_ahas.Tools.Gzip.{Gzip}
use aliyun_ahas.Gateway.Message.{
  AgwMessage, new_agw_message, message_type_biz, message_type_heartbeat, message_direction_request,
}
use aliyun_ahas.Gateway.Sync.{error_msg_request_timeout, error_msg_conn_closed}
use aliyun_ahas.Gateway.Pool.{AgwConn, ConnectionPool, Net, get, write_sync, write_msg}
use aliyun_ahas.Gateway.Ip.{string_ip_to_uint64}

pub record RpcMetadata : Type 0 where
  pub server_name : Text
  pub handler_name : Text
  pub version : ℕ  -- uint32

-- `timeout` is the 64 bits of a `time.Duration`: nanoseconds.
pub record AgwConfig : Type 0 where
  pub client_vpc_id : Text
  pub client_ip : Text
  pub client_process_flag : Text
  pub gateway_ip : Text
  pub gateway_port : ℕ
  pub client_env : Text
  pub client_region_id : Text
  pub tls_flag : Bool
  pub timeout : ℕ

-- `once` says that `initOnce` has run, and `heartbeats` counts the goroutines that it started.
pub record AgwClient : Type 0 where
  pub config : AgwConfig
  pub initialized : Bool
  pub timeout : ℕ  -- uint32
  pub once : Bool
  pub heartbeats : ℕ

abbrev pub error_msg_write_closed_conn : Text
error_msg_write_closed_conn = lit "write: broken pipe"

abbrev pub error_msg_use_closed_conn : Text
error_msg_use_closed_conn = lit "use of closed network connection"

abbrev pub default_req_retry_time : ℕ
default_req_retry_time = 2

-- `generateId`: the number, and the new counter.
abbrev pub generate_id : ℕ → ℕ
generate_id factor = (factor + 1) % 2 ^ 64

-- `uint32(d.Milliseconds())`, for the 64 bits of a `time.Duration`.
abbrev pub milliseconds : ℕ → ℕ
milliseconds d =
    if ltb d (2 ^ 63)
    then d / 1000000 % 2 ^ 32
    else (2 ^ 32 - (2 ^ 64 - d) / 1000000 % 2 ^ 32) % 2 ^ 32

-- `initOnce.Do(...)`
init_once : AgwConfig → AgwClient → AgwClient
init_once config c = if c.once then c else record c {
  config = config;
  timeout = milliseconds config.timeout;
  initialized = true;
  once = true;
  heartbeats = c.heartbeats + 1;
}

download_failed : {W : Type 0} → Result (Unit {0}) × W → Result (Unit {0}) × W
download_failed (ok _, w) = (ok tt, w)
download_failed (err e, w) = (err (lit "download cert failed, " ++ e), w)
download_failed (panic, w) = (panic, w)
download_failed (diverge, w) = (diverge, w)

-- `checkOrDownloadCert`: `exists` is `tools.IsExist(CertPath)`, `download` is `aliyun.Download`.
unfoldable pub check_or_download_cert :
    {W : Type 0} → (W → Bool) → Act W (Unit {0}) → Act W (Unit {0})
unfolding download_failed
check_or_download_cert exists download w =
    if exists w then (ok tt, w) else download_failed (download w)

-- The check of the certificate, for a client that uses TLS.
init_cert : {W : Type 0} → Act W (Unit {0}) → AgwConfig → Act W (Unit {0})
init_cert cert config w = if config.tls_flag then cert w else (ok tt, w)

init_checked :
    {W : Type 0} → AgwConfig → AgwClient → Result (Unit {0}) × W → Result (Unit {0}) × AgwClient × W
init_checked config c (ok _, w) = (ok tt, init_once config c, w)
init_checked config c (err e, w) = (err e, c, w)
init_checked config c (panic, w) = (panic, c, w)
init_checked config c (diverge, w) = (diverge, c, w)

-- `Init`
unfoldable pub init :
    {W : Type 0} → Act W (Unit {0}) → AgwConfig → AgwClient → W → Result (Unit {0}) × AgwClient × W
unfolding init_once init_cert init_checked
init cert config c w =
    if c.initialized
    then (err (lit "dup init"), c, w)
    else if is_empty config.client_ip
    then (err (lit "ip can not be blank"), c, w)
    else if is_empty config.client_process_flag
    then (err (lit "processFlag can not be blank"), c, w)
    else if is_empty config.client_vpc_id
    then (err (lit "vpcId can not be blank"), c, w)
    else init_checked config c (init_cert cert config w)

-- The errors after which `Call` tries again.
unfoldable pub retryable : Text → Bool
retryable e =
    if text_eq e error_msg_request_timeout
    then true
    else if text_eq e error_msg_conn_closed
    then true
    else if contains e error_msg_write_closed_conn
    then true
    else if contains e error_msg_use_closed_conn
    then true
    else false

-- The message that `innerCall` sends.
unfoldable pub request : AgwClient → ℕ → Text → RpcMetadata → Text → ℕ → AgwMessage
request c req_id outer_req_id rpc json_param conn_id = record new_agw_message {
  req_id = req_id;
  message_type = message_type_biz;
  message_direction = message_direction_request;
  client_ip = string_ip_to_uint64 c.config.client_ip;
  client_vpc_id = c.config.client_vpc_id;
  server_name = rpc.server_name;
  timeout_ms = c.timeout;
  client_process_flag = c.config.client_process_flag;
  connection_id = conn_id;
  handler_name = rpc.handler_name;
  outer_req_id = outer_req_id;
  body = json_param;
  version = rpc.version;
}

-- What a call works on: the counter of request numbers, the pool and the outside world.
pub record Shared (W : Type 0) : Type 0 where
  pub factor : ℕ
  pub pool : ConnectionPool
  pub world : W

module _ {W : Type 0} (net : Net W) (gz : Gzip) (c : AgwClient) where
  send_on :
      (ℕ → AgwMessage) → ℕ → Result AgwConn × ConnectionPool × W → Result AgwMessage × Shared W
  send_on message factor (ok conn, p, w) =
      let (r, w₁) = write_sync net gz w conn (message conn.conn_id) in
      (r, record { factor = factor; pool = p; world = w₁ })
  send_on message factor (err e, p, w) = (err e, record { factor = factor; pool = p; world = w })
  send_on message factor (panic, p, w) = (panic, record { factor = factor; pool = p; world = w })
  send_on message factor (diverge, p, w) =
      (diverge, record { factor = factor; pool = p; world = w })

  -- `generateId` and `innerCall`
  pub inner_call : Text → RpcMetadata → Text → Shared W → Result AgwMessage × Shared W
  unfolding send_on
  inner_call outer_req_id rpc json_param s =
      let req_id = generate_id s.factor in
      send_on (request c req_id outer_req_id rpc json_param) req_id
        (get net c.config.tls_flag s.pool s.world)

abbrev retries : Result AgwMessage → Bool
retries (err e) = retryable e
retries _ = false

-- The loop of `Call` over `try`, for a number of rounds, with the result so far.
call_loop :
    {S : Type 0} → (S → Result AgwMessage × S) → ℕ → Result AgwMessage → S → Result AgwMessage × S
call_loop try zero last s = (last, s)
call_loop try (suc n) last s =
    let (r, s') = try s in let again = call_loop try n r s' in if retries r then again else (r, s')

-- What `Call` makes of the last response.
pub finish_call : Result AgwMessage → Result Text
finish_call (ok m) =
    if m.inner_code == 0
    then ok m.body
    else err (lit "call error [" ++ (decimal m.inner_code ++ (lit ":" ++ (m.inner_msg ++ lit "]"))))
finish_call (err e) = err e
finish_call panic = panic
finish_call diverge = diverge

-- `Call`. Before the first round the response is nil, which no round leaves so.
pub call : {S : Type 0} → (S → Result AgwMessage × S) → AgwClient → Text → S → Result Text × S
unfolding call_loop finish_call
call try c outer_req_id s =
    if not c.initialized
    then (err (lit "the client has not be initialized"), s)
    else if is_empty outer_req_id
    then (err (lit "reqId can not be blank"), s)
    else let (r, s') = call_loop try default_req_retry_time panic s in (finish_call r, s')
