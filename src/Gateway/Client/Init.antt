-- ===== src/Gateway/Client/Init.antt =====
-- `Init` of the client (gateway/gateway.go).
use aliyun_ahas.Common.{◌+◌, lit, is_empty, true, false, ◌≡◌, ◌↔◌, ok, err, arith}
use aliyun_ahas.Common.Actions.{Act}
use aliyun_ahas.Gateway.Client.{AgwConfig, AgwClient, milliseconds, init}

-- Every text that `Init` asks for is there, and so is the certificate where TLS is on.
pub record IsAccepted {W : Type 0} (cert : Act W (Unit {0})) (config : AgwConfig) (c : AgwClient)
    (w : W) : Type 0 where
  pub not_yet : c.initialized ≡ false
  pub has_ip : is_empty config.client_ip ≡ false
  pub has_flag : is_empty config.client_process_flag ≡ false
  pub has_vpc : is_empty config.client_vpc_id ≡ false
  pub has_cert : config.tls_flag ≡ true → (cert w).0 ≡ ok tt

-- `Init` succeeds exactly on an accepted configuration.
pub init_succeeds_iff :
    {W : Type 0} (cert : Act W (Unit {0})) (config : AgwConfig) (c : AgwClient) (w : W)
    → ((init cert config c w).0 ≡ ok tt) ↔ IsAccepted cert config c w
unfolding init
init_succeeds_iff cert config c w = (λ e. ground arith, λ h. ground arith)

-- The first successful `Init` gives the client the configuration, its timeout in milliseconds and one
-- heartbeat; after it every `Init`, with any configuration, is refused and changes nothing.
pub init_once_only :
    {W : Type 0} (cert : Act W (Unit {0})) (config other : AgwConfig) (c : AgwClient) (w v : W)
    → IsAccepted cert config c w
    → c.once ≡ false
    → let c' = (init cert config c w).1 in
      (c' ≡ record c {
        config = config;
        timeout = milliseconds config.timeout;
        initialized = true;
        once = true;
        heartbeats = c.heartbeats + 1;
      })
      × (init cert other c' v ≡ (err (lit "dup init"), c', v))
unfolding init
init_once_only cert config other c w v h first = ground arith
