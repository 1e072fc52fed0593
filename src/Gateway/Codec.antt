-- ===== src/Gateway/Codec.antt =====
-- gateway/protocol.go: `Decode` and `Encode`. The order of the fields is that of the source; the long
-- runs of reads and appends are cut into parts. The `recover` at the head of `Decode` has nothing to catch
-- here, since no step of the model panics.
pub mod RoundTrip
pub mod Total
pub mod Truncated
pub mod Samples
mod Tests
use aliyun_ahas.Common.{
  ℕ, ◌%◌, ◌^◌, Text, [], ◌∷◌, ◌++◌, Bool, true, false, ◌&&◌, Option, some, none, Result, length,
  ◌==◌, if◌then◌else◌,
}
use aliyun_ahas.Tools.Gzip.{Gzip, compress_by_gzip, decompress_by_gzip}
use aliyun_ahas.Gateway.Message.{
  AgwMessage, all_compress, request_compress, response_compress, message_direction_request,
  message_direction_response,
}
use aliyun_ahas.Gateway.Wire.{put_uint32, put_uint64}
use aliyun_ahas.Gateway.Stream.{Reader}
use aliyun_ahas.Gateway.Decoder.{
  Decoder, ◌>>=◌, pure, read_bytes, read_uint8, read_uint32, read_uint64, read_text,
}

-- The ladder by which both sides choose whether a body is compressed.
unfoldable pub is_compressed : AgwMessage → Bool
is_compressed m =
    if m.version == all_compress
    then true
    else if m.version == request_compress && m.message_direction == message_direction_request
    then true
    else if m.version == response_compress && m.message_direction == message_direction_response
    then true
    else false

-- The error of the decompression is assigned and never looked at.
set_body : Gzip → AgwMessage → Text → AgwMessage
set_body gz m raw =
    if is_compressed m
    then record m { body = (decompress_by_gzip gz raw).0 }
    else record m { body = raw }

module _ (rd : Reader) where
  pub decode_ids : AgwMessage → Decoder rd.State AgwMessage
  decode_ids m = do
    body_length ← read_uint32 rd
    req_id ← read_uint64 rd
    message_type ← read_uint8 rd
    message_direction ← read_uint8 rd
    caller ← read_uint8 rd
    client_ip ← read_uint64 rd
    pure (record m {
      body_length = body_length;
      req_id = req_id;
      message_type = message_type;
      message_direction = message_direction;
      caller = caller;
      client_ip = client_ip;
    })

  pub decode_client : AgwMessage → Decoder rd.State AgwMessage
  decode_client m = do
    client_vpc_id ← read_text rd
    server_name ← read_text rd
    timeout_ms ← read_uint32 rd
    client_process_flag ← read_text rd
    pure (record m {
      client_vpc_id_length = client_vpc_id.0;
      client_vpc_id = client_vpc_id.1;
      server_name_length = server_name.0;
      server_name = server_name.1;
      timeout_ms = timeout_ms;
      client_process_flag_length = client_process_flag.0;
      client_process_flag = client_process_flag.1;
    })

  pub decode_call : AgwMessage → Decoder rd.State AgwMessage
  decode_call m = do
    inner_code ← read_uint32 rd
    inner_msg ← read_text rd
    connection_id ← read_uint32 rd
    handler_name ← read_text rd
    outer_req_id ← read_text rd
    version ← read_uint32 rd
    pure (record m {
      inner_code = inner_code;
      inner_msg_length = inner_msg.0;
      inner_msg = inner_msg.1;
      connection_id = connection_id;
      handler_name_length = handler_name.0;
      handler_name = handler_name.1;
      outer_req_id_length = outer_req_id.0;
      outer_req_id = outer_req_id.1;
      version = version;
    })

  decode_body : Gzip → AgwMessage → Decoder rd.State AgwMessage
  decode_body gz m = do raw ← read_bytes rd m.body_length; pure (set_body gz m raw)

  -- `Decode`, on the message that the caller made.
  pub decode : Gzip → AgwMessage → Decoder rd.State AgwMessage
  decode gz m₀ = do
    m₁ ← decode_ids m₀
    m₂ ← decode_client m₁
    m₃ ← decode_call m₂
    decode_body gz m₃

-- The conversion `uint32(n)`.
abbrev pub uint32 : ℕ → ℕ
uint32 n = n % 2 ^ 32

-- A length, and the bytes behind it.
abbrev put_text : Text → Text
put_text s = put_uint32 (uint32 (length s)) ++ s

pub encode_ids : Text → AgwMessage → Text
encode_ids body m =
    put_uint32 (uint32 (length body))
    ++ (put_uint64 m.req_id
        ++ ((m.message_type ∷ [])
            ++ ((m.message_direction ∷ []) ++ ((m.caller ∷ []) ++ put_uint64 m.client_ip))))

pub encode_client : AgwMessage → Text
encode_client m =
    put_text m.client_vpc_id
    ++ (put_text m.server_name ++ (put_uint32 m.timeout_ms ++ put_text m.client_process_flag))

pub encode_call : AgwMessage → Text
encode_call m =
    put_uint32 m.inner_code
    ++ (put_text m.inner_msg
        ++ (put_uint32 m.connection_id
            ++ (put_text m.handler_name ++ (put_text m.outer_req_id ++ put_uint32 m.version))))

encode_header : Text → AgwMessage → Text
encode_header body m = encode_ids body m ++ (encode_client m ++ encode_call m)

pub encode_body : Gzip → AgwMessage → Text × Option Text
encode_body gz m = if is_compressed m then compress_by_gzip gz m.body else (m.body, none)

-- What `Encode` returns for a body and the error of its compression.
finish : AgwMessage → Text × Option Text → Text × Bool
finish m (body, some e) = (encode_header body m, false)
finish m (body, none) = (encode_header body m ++ body, true)

-- `Encode`
pub encode : Gzip → AgwMessage → Text × Bool
encode gz m = finish m (encode_body gz m)
