-- ===== src/Transport/Start/Tests.antt =====
-- The transport on a concrete endpoint.
use aliyun_ahas.Common.{
  ℕ, lit, text_eq, unsigned_value, bounded_value, decimal, [], ◌∷◌, ◌++◌, true, false, some, Result,
  ok, panic, ◌≡◌, ◌↔◌, refl,
}
use aliyun_ahas.Aliyun.{get_ahas_proxy_endpoint}
use aliyun_ahas.Meta.{endpoint_for}
use aliyun_ahas.Gateway.Ip.{atoi_bits}
use aliyun_ahas.Gateway.Client.{init}
use aliyun_ahas.Transport.Request.{Request}
use aliyun_ahas.Transport.Response.{Response}
use aliyun_ahas.Transport.Interceptor.{parses}
use aliyun_ahas.Transport.Handler.{AgwRequestHandler, new_common_handler}
use aliyun_ahas.Transport.Samples.{codec, keys, json}
use aliyun_ahas.Transport.Start.Samples.{
  public_meta, insecure, has_cert, same_text, no_handlers, fresh, public_transport,
}
use aliyun_ahas.Transport.Start.{Transport, agw_config, new_transport}
use aliyun_ahas.Transport.Start.Made.{new_transport_succeeds_iff, new_transport_dials_endpoint}
use aliyun_ahas.Transport.Start.Registered.{Holds, register_all, first_handler_stays}

public_endpoint :
    endpoint_for false (lit "prod") (lit "cn-public") ≡ some (lit "ahas-proxy.aliyuncs.com:8848")
unfolding endpoint_for get_ahas_proxy_endpoint text_eq
public_endpoint = refl

new_transport_succeeds_iff_example :
    ((t : Transport) × ((new_transport has_cert same_text
          (some insecure)
          (some public_meta)
          no_handlers
          fresh
          0).0
        ≡ ok t))
    ↔ ((false ≡ false) × (false ≡ false) × (false ≡ false) × ((has_cert 0).0 ≡ ok tt))
new_transport_succeeds_iff_example =
    new_transport_succeeds_iff has_cert same_text false (lit "prod") (lit "cn-public") insecure
      public_meta no_handlers fresh 0 public_endpoint

makes :
    (new_transport has_cert same_text (some insecure) (some public_meta) no_handlers fresh 0).0
    ≡ ok public_transport
unfolding new_transport agw_config init parses atoi_bits unsigned_value bounded_value
makes = refl

new_transport_dials_endpoint_example :
    (lit "ahas-proxy.aliyuncs.com" ++ (lit ":" ++ decimal 8848)
      ≡ lit "ahas-proxy.aliyuncs.com:8848")
    × (true ≡ true)
    × (true ≡ true)
new_transport_dials_endpoint_example =
    new_transport_dials_endpoint has_cert same_text false (lit "prod") (lit "cn-public") insecure
      public_meta no_handlers fresh 0 public_transport public_endpoint refl makes

abbrev answers : Request → Result Response
answers r = panic

abbrev handler_at : ℕ → AgwRequestHandler
handler_at now = new_common_handler codec keys now answers

first_handler_stays_example : Holds json (lit "ping") (handler_at 1) (
    register_all json
      ((lit "ping", handler_at 1) ∷ (lit "metric", handler_at 2) ∷ (lit "ping", handler_at 3) ∷ [])
      public_transport)
first_handler_stays_example =
    first_handler_stays json (lit "ping") (handler_at 1)
      ((lit "metric", handler_at 2) ∷ (lit "ping", handler_at 3) ∷ []) public_transport refl refl
