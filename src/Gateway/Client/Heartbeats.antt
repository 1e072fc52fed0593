-- ===== src/Gateway/Client/Heartbeats.antt =====
-- gateway/heartbeat.go: the goroutine that keeps the connections alive.
use aliyun_ahas.Common.{ℕ, zero, suc, lit, Result, ok, err, panic, diverge}
use aliyun_ahas.Tools.Gzip.{Gzip}
use aliyun_ahas.Gateway.Message.{
  AgwMessage, new_agw_message, message_type_heartbeat, message_direction_request,
}
use aliyun_ahas.Gateway.Pool.{AgwConn, ConnectionPool, Net, get, write_msg}
use aliyun_ahas.Gateway.Ip.{string_ip_to_uint64}
use aliyun_ahas.Gateway.Client.{AgwClient, Shared, generate_id}

-- The message of the heartbeat.
pub heartbeat_message : AgwClient → ℕ → ℕ → AgwMessage
heartbeat_message c req_id conn_id = record new_agw_message {
  req_id = req_id;
  message_type = message_type_heartbeat;
  message_direction = message_direction_request;
  client_ip = string_ip_to_uint64 c.config.client_ip;
  client_vpc_id = c.config.client_vpc_id;
  server_name = lit "HBGATEWAY";
  timeout_ms = 3000;
  client_process_flag = c.config.client_process_flag;
  connection_id = conn_id;
  handler_name = lit "HB";
  outer_req_id = lit "noReqIdForHB";
  body = lit "HBMSGBODY";
}

module _ {W : Type 0} (net : Net W) (gz : Gzip) (c : AgwClient) where
  -- The write of a heartbeat on the connection that `get` gave; an error is passed over, after a
  -- pause. The result is `ok` where the goroutine goes on.
  beat_on : ℕ → Result AgwConn × ConnectionPool × W → Result (Unit {0}) × Shared W
  beat_on factor (ok conn, p, w) =
      let req_id = generate_id factor in
      let (e, w₁) = write_msg net gz w conn (heartbeat_message c req_id conn.conn_id) in
      (ok tt, record { factor = req_id; pool = p; world = w₁ })
  beat_on factor (err e, p, w) = (ok tt, record { factor = factor; pool = p; world = w })
  beat_on factor (panic, p, w) = (panic, record { factor = factor; pool = p; world = w })
  beat_on factor (diverge, p, w) = (diverge, record { factor = factor; pool = p; world = w })

  beat_on_while :
      Shared W → (Shared W → Result (Unit {0}) × Shared W) → Result (Unit {0}) × Shared W
  beat_on_while s rest =
      let (r, s') = beat_on s.factor (get net c.config.tls_flag s.pool s.world) in
      elim r [
        | ok _ ↦ rest s'
        | err e ↦ (err e, s')
        | panic ↦ (panic, s')
        | diverge ↦ (diverge, s')
      ]

  -- The inner loop of `runHeartBeatCoroutine`, for the rounds that are left.
  pub heartbeat_round : ℕ → Shared W → Result (Unit {0}) × Shared W
  unfolding beat_on beat_on_while
  heartbeat_round zero s = (ok tt, s)
  heartbeat_round (suc n) s = beat_on_while s (λ s'. heartbeat_round n s')
