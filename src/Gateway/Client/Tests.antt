-- ===== src/Gateway/Client/Tests.antt =====
-- Runs of the client.
use aliyun_ahas.Common.{
  ℕ, zero, suc, ◌+◌, ◌*◌, ◌^◌, ◌≡◌, refl, sym, append-nil, Text, lit, [], true, false, Result, ok,
  err, arith,
}
use aliyun_ahas.Gateway.Message.{
  AgwMessage, new_agw_message, message_type_biz, message_direction_request, all_compress,
}
use aliyun_ahas.Gateway.Sync.{get_sync_id, error_msg_request_timeout}
use aliyun_ahas.Gateway.Codec.{decode, encode}
use aliyun_ahas.Gateway.Codec.Samples.{
  byte_reader, byte_reader-IsStream, marker, marker-IsInverse, marker-encodes, marker-fits,
}
use aliyun_ahas.Gateway.Ip.Quad.{dotted_quad}
use aliyun_ahas.Gateway.Client.{RpcMetadata, AgwConfig, AgwClient, call, finish_call, request}
use aliyun_ahas.Gateway.Client.Calls.{second_try, call_attempts}
use aliyun_ahas.Gateway.Client.Request.{IsFit, request_arrives}

abbrev config : AgwConfig
config = record {
  client_vpc_id = lit "vpc";
  client_ip = dotted_quad 10 0 0 1;
  client_process_flag = lit "app";
  gateway_ip = lit "gateway";
  gateway_port = 9527;
  client_env = lit "prod";
  client_region_id = lit "cn-hangzhou";
  tls_flag = true;
  timeout = 3000000000;
}

abbrev fresh : AgwClient
fresh = record { config = config; initialized = false; timeout = 0; once = false; heartbeats = 0 }

abbrev ready : AgwClient
ready = record fresh { initialized = true; timeout = 3000; once = true; heartbeats = 1 }

-- The first attempt times out, the second is answered.
abbrev slow : ℕ → Result AgwMessage × ℕ
slow zero = (err error_msg_request_timeout, 1)
slow (suc n) = (ok (record new_agw_message { body = lit "done" }), suc (suc n))

call_attempts_example :
    let (r, s') = second_try slow 1 (err error_msg_request_timeout) in
    call slow ready (lit "id") 0 ≡ (finish_call r, s')
call_attempts_example = call_attempts slow ready (lit "id") 0 refl refl

abbrev rpc : RpcMetadata
rpc = record { server_name = lit "server"; handler_name = lit "handler"; version = all_compress }

abbrev sent : AgwMessage
sent = request ready 9 (lit "outer") rpc (lit "{}") 1

fit : IsFit ready 9 (lit "outer") rpc 1 10 0 0 1
fit = record {
  a₀_byte = omega arith;
  a₁_byte = omega arith;
  a₂_byte = omega arith;
  a₃_byte = omega arith;
  ip = refl;
  req_id_fits = omega arith;
  timeout_fits = omega arith;
  conn_id_fits = omega arith;
  version_fits = omega arith;
  vpc_fits = omega arith;
  flag_fits = omega arith;
  server_fits = omega arith;
  handler_fits = omega arith;
  outer_fits = omega arith;
}

request_arrives_example :
    (m : AgwMessage) × (t : Text) × (decode byte_reader marker new_agw_message
        (encode marker sent).0
      ≡ ok (m, t))
    × (t ≡ [])
    × (m.message_type ≡ message_type_biz)
    × (m.message_direction ≡ message_direction_request)
    × (m.client_ip ≡ 10 * 2 ^ 24 + 0 * 2 ^ 16 + 0 * 2 ^ 8 + 1)
    × (m.client_vpc_id ≡ lit "vpc")
    × (m.client_process_flag ≡ lit "app")
    × (m.timeout_ms ≡ 3000)
    × (m.server_name ≡ lit "server")
    × (m.handler_name ≡ lit "handler")
    × (m.outer_req_id ≡ lit "outer")
    × (m.body ≡ lit "{}")
    × (get_sync_id m ≡ get_sync_id sent)
unfolding request
request_arrives_example =
    request_arrives byte_reader byte_reader-IsStream marker marker-IsInverse ready 9 (lit "outer")
      rpc (lit "{}") 1 10 0 0 1 fit (marker-fits sent (omega arith)) (marker-encodes sent)
      new_agw_message (encode marker sent).0 [] (sym (append-nil (encode marker sent).0))
