-- ===== src/Startup/Facts.antt =====
-- What is known of the process between the stages of the start (init.go).
use aliyun_ahas.Common.{
  ◌≤◌, ◌<◌, Text, lit, is_empty, decimal, List, [], ◌∷◌, ◌++◌, true, false, none, some, ◌≡◌,
}
use aliyun_ahas.Service.{live}
use aliyun_ahas.Meta.{endpoint_for}
use aliyun_ahas.Aliyun.{get_acm_endpoint}
use aliyun_ahas.Transport.Start.{Transport}
use aliyun_ahas.Startup.{Process, channel_ctx}

-- A client that has not been initialised, and what the channel of tenants has.
pub record IsFresh (before : List Text) (p : Process) : Type 0 where
  pub not_yet : p.client.once ≡ false
  pub sent_before : p.metadata.tid_chan ≡ before

-- The data source's timeouts fit.
pub record IsBounded (p : Process) : Type 0 where
  pub timeout_some : 0 < p.config.data_source.timeout_ms
  pub timeout_fits : p.config.data_source.timeout_ms ≤ p.config.data_source.listen_interval_ms

-- The endpoint is the one of the environment and the region.
pub record IsPlaced (p : Process) : Type 0 where
  pub placed :
      endpoint_for p.config.transport.secure p.config.env p.metadata.region_id
      ≡ some p.metadata.ahas_endpoint

-- The channel runs, so that `Download` works.
pub record IsOpen (p : Process) : Type 0 where
  pub open_channel : channel_ctx p.channel ≡ some live

-- There is an endpoint for the rules.
pub record HasAcm (p : Process) : Type 0 where
  pub host : Text
  pub host_found : get_acm_endpoint p.metadata.region_id ≡ some host

-- The transport's client dials the endpoint by TLS, and no handler is registered.
pub record IsDialling (p : Process) : Type 0 where
  pub transport : Transport
  pub made_transport : p.transport ≡ some transport
  pub dials :
      transport.client.config.gateway_ip
        ++ (lit ":" ++ decimal transport.client.config.gateway_port)
      ≡ p.metadata.ahas_endpoint
  pub by_tls : transport.client.config.tls_flag ≡ true
  pub no_handlers : (name : Text) → transport.handlers name ≡ none

-- The user and the tenant are known, and the tenant is sent.
pub record IsNamed (before : List Text) (p : Process) : Type 0 where
  pub uid_known : is_empty p.metadata.uid ≡ false
  pub tid_known : is_empty p.metadata.tid ≡ false
  pub tid_sent : p.metadata.tid_chan ≡ before ++ (p.metadata.tid ∷ [])

-- A process before it has a transport.
pub record IsSettled (before : List Text) (p : Process) : Type 0 where
  pub fresh : IsFresh before p
  pub bounded : IsBounded p
  pub located : IsPlaced p

-- A process whose rules and downloads work, too.
pub record IsServed (p : Process) : Type 0 where
  pub bounded : IsBounded p
  pub located : IsPlaced p
  pub opened : IsOpen p
  pub has_acm : HasAcm p
