-- ===== src/Startup.antt =====
-- init.go: the start of the SDK, from the configuration to the heartbeat.
pub mod Facts
pub mod Stages
pub mod Joined
pub mod Ready
pub mod DataSource
pub mod Listens
mod Tests
use aliyun_ahas.Common.{
  ℕ, Text, lit, ◌++◌, Bool, true, false, Option, none, some, Result, ok, err, panic, diverge,
  if◌then◌else◌,
}
use aliyun_ahas.Common.Actions.{Act, proceed, ◌>>=◌, ◌>>◌, done, fail}
use aliyun_ahas.Service
use aliyun_ahas.Service.{Context, nil, live, cancelled, Controller, LifeCycle0, new_controller}
use aliyun_ahas.Config.{Config, Surroundings, init_config_from_file}
use aliyun_ahas.Meta.{Meta, Machine, init_metadata}
use aliyun_ahas.Aliyun.{Files, download, get_acm_endpoint}
use aliyun_ahas.Tools.Auth.{Keys}
use aliyun_ahas.Tools.Constants.{Constants, Repositories, init_constant, current}
use aliyun_ahas.Gateway.Client.{AgwClient, check_or_download_cert}
use aliyun_ahas.Gateway.Reader.{Handlers}
use aliyun_ahas.Transport.Response.{Response}
use aliyun_ahas.Transport.Request.{Request}
use aliyun_ahas.Transport.Interceptor.{Codec}
use aliyun_ahas.Transport.Handler.{Json, new_common_handler}
use aliyun_ahas.Transport.Invoker.{Client}
use aliyun_ahas.Transport.Start.{Transport, App, new_transport, register_handler, start_transport}
use aliyun_ahas.Heartbeat.{Heartbeat, has_ticker, new_heartbeat}

-- The variables of the packages that the start sets.
pub record Process : Type 0 where
  pub config : Config
  pub metadata : Meta
  pub channel : Option Controller
  pub repositories : Repositories
  pub client : AgwClient
  pub handlers : Handlers
  pub transport : Option Transport
  pub heartbeat : Option Heartbeat

-- What the start uses of the outside: sentinel-golang and the log (`sentinel_init`, `logger_init`), the
-- configuration's surroundings, the machine, the files (`cert_path` is `CertPath`, `cert_exists` whether it is
-- there, `join_path` is `path.Join` of a remote path with "cert" and "sChat.pem"), and what the transport uses.
-- `recovered` is the text of the panic that is recovered.
pub record Outside (W : Type 0) : Type 0 where
  pub sentinel_init : Text → Act W (Unit {0})
  pub logger_init : Act W (Unit {0})
  pub surroundings : Surroundings
  pub machine : Machine W
  pub files : Files W
  pub cert_path : Text
  pub cert_exists : W → Bool
  pub join_path : Text → Text
  pub atoi_error : Text → Text
  pub json : Json
  pub call : Client W
  pub save : Text → Text → W → Option Text × W
  pub app : App
  pub new_id : W → Text × W
  pub codec : Codec
  pub keys : Keys
  pub now : ℕ
  pub resource_nodes : Request → Result Response
  pub metrics : Request → Result Response
  pub recovered : Text

abbrev pub State : Type 0 → Type 0
State W = Process × W

-- `DoStart` and `DoStop` of the channel do nothing.
abbrev pub channel_cycle : LifeCycle0 (Unit {0})
channel_cycle = record { do_start = λ w. (none, w); do_stop = λ w. (none, w) }

-- `GetInstance`
abbrev pub get_instance : Option Controller → Controller
get_instance none = new_controller
get_instance (some c) = c

-- The context of the channel.
abbrev pub channel_ctx : Option Controller → Option Context
channel_ctx none = none
channel_ctx (some c) = some c.ctx

module _ {W : Type 0} (outside : Outside W) where
  pub outer : Act W (Unit {0}) → Act (State W) (Unit {0})
  outer action (p, w) = let (r, w₁) = action w in (r, (p, w₁))

  pub load_config : Text → Act (State W) (Unit {0})
  load_config filename (p, w) =
      let (r, config) = init_config_from_file outside.surroundings filename p.config in
      (r, (record p { config = config }, w))

  pub load_metadata : Act (State W) (Unit {0})
  load_metadata (p, w) =
      let (r, s) =
        init_metadata outside.machine p.config.license p.config.name_space p.config.env
          p.config.transport.secure (p.metadata, w) in
      (r, (record p { metadata = s.0 }, s.1))

  started : Option Text × Controller × Unit {0} → Act (State W) (Unit {0})
  started (none, c, _) (p, w) = (ok tt, (record p { channel = some c }, w))
  started (some e, c, _) (p, w) = (err e, (record p { channel = some c }, w))

  pub start_channel : Act (State W) (Unit {0})
  unfolding started
  start_channel (p, w) = started (Service.start channel_cycle (get_instance p.channel) tt) (p, w)

  pub set_constant : Act (State W) (Unit {0})
  set_constant (p, w) = (
    ok tt,
    (record p { repositories = init_constant p.config.env p.metadata.region_id p.repositories }, w),
  )

  -- The endpoint of the rules for the region.
  require_acm : Option Text → Act (State W) (Unit {0})
  require_acm none s =
      (err (lit "no available ACM endpoint for region: " ++ s.0.metadata.region_id), s)
  require_acm (some host) s = (ok tt, s)

  pub check_acm : Act (State W) (Unit {0})
  unfolding require_acm
  check_acm (p, w) = require_acm (get_acm_endpoint p.metadata.region_id) (p, w)

  -- `checkOrDownloadCert`, in the process; a nil `Constant` panics.
  fetch_cert : Process → Option Constants → Act W (Unit {0})
  fetch_cert p none w = (panic, w)
  fetch_cert p (some c) w =
      download outside.files (channel_ctx p.channel) (some c.bucket) outside.cert_path
        p.metadata.region_id (outside.join_path c.os_agent_remote_path) p.metadata.in_vpc w

  cert : Process → Act W (Unit {0})
  unfolding fetch_cert
  cert p w = check_or_download_cert outside.cert_exists (fetch_cert p (current p.repositories)) w

  transport_made : Result Transport × AgwClient × W → Process → Result (Unit {0}) × State W
  transport_made (ok t, c, w) p = (ok tt, (record p { client = c; transport = some t }, w))
  transport_made (err e, c, w) p = (err e, (record p { client = c }, w))
  transport_made (panic, c, w) p = (panic, (record p { client = c }, w))
  transport_made (diverge, c, w) p = (diverge, (record p { client = c }, w))

  pub make_transport : Act (State W) (Unit {0})
  unfolding transport_made
  make_transport (p, w) =
      transport_made
        (new_transport (cert p) outside.atoi_error (some p.config.transport) (some p.metadata)
          p.handlers p.client w)
        p

  pub connect_transport : Act (State W) (Unit {0})
  connect_transport (p, w) =
      let (id, w₁) = outside.new_id w in
      let (r, m, w₂) =
        start_transport outside.json outside.call outside.save outside.app id p.metadata w₁ in
      (r, (record p { metadata = m }, w₂))

  -- `registerTransportHandlers`
  register_transport_handlers : Transport → Transport
  register_transport_handlers t =
      let make : (Request → Result Response) → _ =
        new_common_handler outside.codec outside.keys outside.now in
      register_handler outside.json (lit "metric") (make outside.metrics)
        (register_handler outside.json (lit "clusterNode") (make outside.resource_nodes) t)

  -- The handlers, and the heartbeat with its own, which panics where the ticker does.
  finish : Option Transport → Act (State W) (Unit {0})
  unfolding register_transport_handlers
  finish none (p, w) = (panic, (p, w))
  finish (some t) (p, w) =
      let beat =
        new_heartbeat outside.json outside.codec outside.keys outside.now p.config.heartbeat
          (register_transport_handlers t) in
      (
        (if has_ticker beat then ok tt else panic),
        (
          record p {
            heartbeat = some beat;
            transport = some beat.transport;
            handlers = beat.transport.registered;
          },
          w,
        ),
      )

  pub finish_start : Act (State W) (Unit {0})
  unfolding finish
  finish_start (p, w) = finish p.transport (p, w)

  -- `InitAhasFromFile`, before the panics are recovered.
  init_steps : Text → Act (State W) (Unit {0})
  init_steps filename = do
    outer (outside.sentinel_init filename)
    outer outside.logger_init
    load_config filename
    load_metadata
    start_channel
    set_constant
    check_acm
    make_transport
    connect_transport
    finish_start

  recover : Result (Unit {0}) × State W → Result (Unit {0}) × State W
  recover (panic, s) = (err outside.recovered, s)
  recover (ok _, s) = (ok tt, s)
  recover (err e, s) = (err e, s)
  recover (diverge, s) = (diverge, s)

  -- `InitAhasFromFile`. The goroutine that it starts last is `init_acm`.
  pub init_ahas_from_file : Text → Act (State W) (Unit {0})
  unfolding recover
  init_ahas_from_file filename s = recover (init_steps filename s)
