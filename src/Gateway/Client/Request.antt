-- ===== src/Gateway/Client/Request.antt =====
-- What the gateway gets for a call (gateway/gateway.go, gateway/protocol.go).
use aliyun_ahas.Common.{ℕ, ◌+◌, ◌*◌, ◌^◌, ◌<◌, ◌≡◌, refl, Text, ◌++◌, length, true, ok, arith}
use aliyun_ahas.Tools.Gzip.{Gzip, IsInverse}
use aliyun_ahas.Gateway.Message.{AgwMessage, message_type_biz, message_direction_request}
use aliyun_ahas.Gateway.Stream.{Reader, IsStream}
use aliyun_ahas.Gateway.Codec.{decode, encode, encode_body}
use aliyun_ahas.Gateway.Codec.RoundTrip.{IsSized, received, decode-encode}
use aliyun_ahas.Gateway.Sync.{get_sync_id}
use aliyun_ahas.Gateway.Ip.Quad.{dotted_quad, string_ip_to_uint64-dotted_quad}
use aliyun_ahas.Gateway.Client.{AgwClient, RpcMetadata, request}

-- The client's values and those of one call fit the fields of a message, and the address is a dotted
-- quad.
pub record IsFit (c : AgwClient) (req_id : ℕ) (outer_req_id : Text) (rpc : RpcMetadata)
    (conn_id : ℕ) (a₀ a₁ a₂ a₃ : ℕ) : Type 0 where
  pub a₀_byte : a₀ < 256
  pub a₁_byte : a₁ < 256
  pub a₂_byte : a₂ < 256
  pub a₃_byte : a₃ < 256
  pub ip : c.config.client_ip ≡ dotted_quad a₀ a₁ a₂ a₃
  pub req_id_fits : req_id < 2 ^ 64
  pub timeout_fits : c.timeout < 2 ^ 32
  pub conn_id_fits : conn_id < 2 ^ 32
  pub version_fits : rpc.version < 2 ^ 32
  pub vpc_fits : length c.config.client_vpc_id < 2 ^ 32
  pub flag_fits : length c.config.client_process_flag < 2 ^ 32
  pub server_fits : length rpc.server_name < 2 ^ 32
  pub handler_fits : length rpc.handler_name < 2 ^ 32
  pub outer_fits : length outer_req_id < 2 ^ 32

request-IsSized :
    (c : AgwClient) (req_id : ℕ) (outer_req_id : Text) (rpc : RpcMetadata) (json_param : Text)
    (conn_id a₀ a₁ a₂ a₃ : ℕ)
    → IsFit c req_id outer_req_id rpc conn_id a₀ a₁ a₂ a₃
    → IsSized (request c req_id outer_req_id rpc json_param conn_id)
unfolding request
request-IsSized c req_id outer_req_id rpc json_param conn_id a₀ a₁ a₂ a₃ h =
    let ip_value =
      string_ip_to_uint64-dotted_quad a₀ a₁ a₂ a₃ h.a₀_byte h.a₁_byte h.a₂_byte h.a₃_byte in
    ground (arith, ip_value, h.ip)

-- Where the values of the client and the call fit their fields, the client's address is a dotted quad, and
-- the message encodes by a compression that is undone: the message that `innerCall` writes, read off the connection by the peer, is a request of the
-- business kind with the client's VPC, address, process flag and timeout, the call's own names,
-- request id and body, and the key under which the client waits; nothing is left of it in the stream.
pub request_arrives :
    (rd : Reader) (st : IsStream rd) (gz : Gzip)
    → IsInverse gz
    → (c : AgwClient) (req_id : ℕ) (outer_req_id : Text) (rpc : RpcMetadata) (json_param : Text)
      (conn_id a₀ a₁ a₂ a₃ : ℕ)
    → IsFit c req_id outer_req_id rpc conn_id a₀ a₁ a₂ a₃
    → let sent = request c req_id outer_req_id rpc json_param conn_id in
      length (encode_body gz sent).0 < 2 ^ 32
      → (encode gz sent).1 ≡ true
      → (m₀ : AgwMessage) (s : rd.State) (rest : Text) → st.pending s ≡ (encode gz sent).0 ++ rest
      → (m : AgwMessage) × (t : rd.State) × (decode rd gz m₀ s ≡ ok (m, t))
        × (st.pending t ≡ rest)
        × (m.message_type ≡ message_type_biz)
        × (m.message_direction ≡ message_direction_request)
        × (m.client_ip ≡ a₀ * 2 ^ 24 + a₁ * 2 ^ 16 + a₂ * 2 ^ 8 + a₃)
        × (m.client_vpc_id ≡ c.config.client_vpc_id)
        × (m.client_process_flag ≡ c.config.client_process_flag)
        × (m.timeout_ms ≡ c.timeout)
        × (m.server_name ≡ rpc.server_name)
        × (m.handler_name ≡ rpc.handler_name)
        × (m.outer_req_id ≡ outer_req_id)
        × (m.body ≡ json_param)
        × (get_sync_id m ≡ get_sync_id sent)
unfolding received request get_sync_id
request_arrives rd st gz inverse c req_id outer_req_id rpc json_param conn_id a₀ a₁ a₂ a₃ h fits
      sent m₀ s rest e =
    let message = request c req_id outer_req_id rpc json_param conn_id in
    let sized = request-IsSized c req_id outer_req_id rpc json_param conn_id a₀ a₁ a₂ a₃ h in
    let (t, r, left) = decode-encode rd st gz inverse m₀ message sized fits sent s rest e in
    let ip_value =
      string_ip_to_uint64-dotted_quad a₀ a₁ a₂ a₃ h.a₀_byte h.a₁_byte h.a₂_byte h.a₃_byte in
    (
      received message (encode_body gz message).0,
      t,
      r,
      left,
      refl,
      refl,
      rw (h.ip) ip_value,
      refl,
      refl,
      refl,
      refl,
      refl,
      refl,
      refl,
      refl,
    )
