-- ===== src/Transport/Start/Made.antt =====
-- The client that `New` initialises (transport/transport.go).
use aliyun_ahas.Common.{
  ◌*◌, ◌%◌, ◌^◌, ◌<◌, Text, lit, is_empty, text_eq, decimal, unsigned_value, bounded_value, List,
  [], ◌∷◌, ◌++◌, All, Bool, true, false, none, some, ok, ◌≡◌, ◌↔◌, refl, subst, Bool-cases, inl,
  inr, arith,
}
use aliyun_ahas.Aliyun.{
  find, endpoint_map, tls_endpoint_map, get_ahas_proxy_endpoint, get_ahas_proxy_tls_endpoint,
}
use aliyun_ahas.Common.Actions.{Act}
use aliyun_ahas.Config.{TransportConfig, or_default}
use aliyun_ahas.Meta.{Meta, endpoint_for}
use aliyun_ahas.Gateway.Ip.{atoi_bits}
use aliyun_ahas.Gateway.Client.{AgwClient, milliseconds, init}
use aliyun_ahas.Gateway.Reader.{Handlers}
use aliyun_ahas.Transport.Interceptor.{parses}
use aliyun_ahas.Transport.Start.{Transport, split_n, agw_config, made, at_port, new_transport}

-- A host and a port, with a colon between.
pub record IsEndpoint (e : Text) : Type 0 where
  pub host : Text
  pub port : Text
  pub splits : split_n e ≡ (host, some port)
  pub is_number : parses port ≡ true
  pub joins : host ++ (lit ":" ++ decimal (atoi_bits port % 2 ^ 32)) ≡ e

All-find :
    (P : Text → Type 0) (kvs : List (Text × Text)) (key v : Text)
    → All (λ kv. P kv.1) kvs
    → find kvs key ≡ some v
    → P v
All-find P [] key v h e = absurd (ground arith)
All-find P ((k, u) ∷ kvs) key v (p, h) e = elim (Bool-cases (text_eq k key)) [
  | inl hit ↦ let same : u ≡ v = ground arith in subst P same p
  | inr miss ↦ let later : find kvs key ≡ some v = ground arith in All-find P kvs key v h later
]

abbrev endpoint :
    (e host port : Text)
    → split_n e ≡ (host, some port)
    → parses port ≡ true
    → host ++ (lit ":" ++ decimal (atoi_bits port % 2 ^ 32)) ≡ e
    → IsEndpoint e
endpoint e host port s n j = record {
  host = host;
  port = port;
  splits = s;
  is_number = n;
  joins = j;
}

table_endpoints :
    (All (λ kv. IsEndpoint kv.1) endpoint_map) × (All (λ kv. IsEndpoint kv.1) tls_endpoint_map)
unfolding parses atoi_bits decimal unsigned_value bounded_value
table_endpoints = (
  (
    endpoint _ _ _ refl refl refl,
    (
      endpoint _ _ _ refl refl refl,
      (
        endpoint _ _ _ refl refl refl,
        (
          endpoint _ _ _ refl refl refl,
          (
            endpoint _ _ _ refl refl refl,
            (endpoint _ _ _ refl refl refl, (endpoint _ _ _ refl refl refl, tt)),
          ),
        ),
      ),
    ),
  ),
  (
    endpoint _ _ _ refl refl refl,
    (
      endpoint _ _ _ refl refl refl,
      (
        endpoint _ _ _ refl refl refl,
        (
          endpoint _ _ _ refl refl refl,
          (
            endpoint _ _ _ refl refl refl,
            (endpoint _ _ _ refl refl refl, (endpoint _ _ _ refl refl refl, tt)),
          ),
        ),
      ),
    ),
  ),
)

endpoint_for-IsEndpoint :
    (secure : Bool) (env region e : Text) → endpoint_for secure env region ≡ some e → IsEndpoint e
unfolding endpoint_for get_ahas_proxy_endpoint get_ahas_proxy_tls_endpoint
endpoint_for-IsEndpoint true env region e h =
    All-find IsEndpoint tls_endpoint_map _ e table_endpoints.1 h
endpoint_for-IsEndpoint false env region e h =
    All-find IsEndpoint endpoint_map _ e table_endpoints.0 h

module _ {W : Type 0} (cert : Act W (Unit {0})) (atoi_error : Text → Text) where
  -- For an endpoint that is one of a table, with TLS or without, `New` succeeds exactly if the client was not
  -- initialised, the address and the id of the VPC are there, and the certificate is, too.
  pub new_transport_succeeds_iff :
      (secure : Bool) (env region : Text) (conf : TransportConfig) (m : Meta)
      (registered : Handlers) (c : AgwClient) (w : W)
      → endpoint_for secure env region ≡ some m.ahas_endpoint
      → ((t : Transport) × ((new_transport cert atoi_error (some conf) (some m) registered c w).0
            ≡ ok t))
        ↔ ((c.initialized ≡ false)
            × (is_empty m.ip ≡ false)
            × (is_empty m.vpc_id ≡ false)
            × ((cert w).0 ≡ ok tt))
  unfolding new_transport at_port made agw_config init
  new_transport_succeeds_iff secure env region conf m registered c w found =
      let endpoint = endpoint_for-IsEndpoint secure env region m.ahas_endpoint found in
      let parts = endpoint.splits in
      let number = endpoint.is_number in
      (λ made_it. ground arith, λ h. (joined endpoint.host endpoint.port, ground arith))
    where
      joined : Text → Text → Transport
      joined host port =
          let filled : TransportConfig = record conf {
            timeout_ms = or_default conf.timeout_ms 3000;
          } in
          record {
            config = filled;
            client = (init cert (agw_config filled m host port) c w).1;
            handlers = λ name. none;
            registered = registered;
          }

  -- The transport that `New` makes for an endpoint of a table, on a client whose initialisation is still to
  -- run, has a client that dials this endpoint, and by TLS also where the endpoint was chosen from the table
  -- without TLS.
  pub new_transport_dials_endpoint :
      (secure : Bool) (env region : Text) (conf : TransportConfig) (m : Meta)
      (registered : Handlers) (c : AgwClient) (w : W) (t : Transport)
      → endpoint_for secure env region ≡ some m.ahas_endpoint
      → c.once ≡ false
      → (new_transport cert atoi_error (some conf) (some m) registered c w).0 ≡ ok t
      → (t.client.config.gateway_ip ++ (lit ":" ++ decimal t.client.config.gateway_port)
          ≡ m.ahas_endpoint)
        × (t.client.config.tls_flag ≡ true)
        × (t.client.initialized ≡ true)
  unfolding new_transport at_port made agw_config init
  new_transport_dials_endpoint secure env region conf m registered c w t found first e =
      let endpoint = endpoint_for-IsEndpoint secure env region m.ahas_endpoint found in
      let parts = endpoint.splits in
      let number = endpoint.is_number in let whole = endpoint.joins in ground arith

  -- A new transport has no handlers.
  pub new_transport_no_handlers :
      (conf : TransportConfig) (m : Meta) (registered : Handlers) (c : AgwClient) (w : W)
      (t : Transport) (name : Text)
      → (new_transport cert atoi_error (some conf) (some m) registered c w).0 ≡ ok t
      → t.handlers name ≡ none
  unfolding new_transport at_port made
  new_transport_no_handlers conf m registered c w t name e = ground arith

-- The client's timeout in milliseconds, a uint32, is the one that is configured exactly if that is below 2 ^ 32,
-- for a configured timeout that a `time.Duration` can hold.
pub client_timeout_bounds :
    (conf : TransportConfig) (m : Meta) (host port : Text)
    → conf.timeout_ms * 1000000 < 2 ^ 63
    → let timeout = milliseconds (agw_config conf m host port).timeout in
      (timeout < 2 ^ 32) × ((timeout ≡ conf.timeout_ms) ↔ (conf.timeout_ms < 2 ^ 32))
unfolding agw_config
client_timeout_bounds conf m host port h = ground arith
