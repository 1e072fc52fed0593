-- ===== src/Gateway/Codec/RoundTrip.antt =====
-- What the peer decodes is what was encoded (gateway/protocol.go).
use aliyun_ahas.Common.{
  ℕ, ◌<◌, ◌^◌, ◌≡◌, refl, sym, ap, Text, ◌++◌, append_assoc, Option, none, some, true, Bool-cases,
  inl, inr, length, ok, arith,
}
use aliyun_ahas.Tools.Gzip.{Gzip, IsInverse, decompress_by_gzip-compress_by_gzip}
use aliyun_ahas.Gateway.Message.{AgwMessage}
use aliyun_ahas.Gateway.Wire.{put_uint32}
use aliyun_ahas.Gateway.Stream.{Reader, IsStream}
use aliyun_ahas.Gateway.Decoder.{
  Takes, Takes-bind, Takes-map, read_bytes-Takes, read_uint8-Takes, read_uint32-Takes,
  read_uint64-Takes, read_uint32, read_text, read_text-Takes,
}
use aliyun_ahas.Gateway.Codec.{
  uint32, is_compressed, decode_ids, decode_client, decode_call, decode_body, decode, set_body,
  encode_ids, encode_client, encode_call, encode_header, encode_body, finish, encode,
}

-- The values of each field fit its width, as Go's types see to; a byte field needs nothing, since the
-- stream carries it as one element.
pub record IsSized (m : AgwMessage) : Type 0 where
  pub req_id_fits : m.req_id < 2 ^ 64
  pub client_ip_fits : m.client_ip < 2 ^ 64
  pub timeout_ms_fits : m.timeout_ms < 2 ^ 32
  pub inner_code_fits : m.inner_code < 2 ^ 32
  pub connection_id_fits : m.connection_id < 2 ^ 32
  pub version_fits : m.version < 2 ^ 32
  pub client_vpc_id_fits : length m.client_vpc_id < 2 ^ 32
  pub server_name_fits : length m.server_name < 2 ^ 32
  pub client_process_flag_fits : length m.client_process_flag < 2 ^ 32
  pub inner_msg_fits : length m.inner_msg < 2 ^ 32
  pub handler_name_fits : length m.handler_name < 2 ^ 32
  pub outer_req_id_fits : length m.outer_req_id < 2 ^ 32

-- What arrives for the message `m` sent with the body bytes `raw`: every field of `m`, and the lengths
-- as they stood on the wire.
unfoldable pub received : AgwMessage → Text → AgwMessage
received m raw = record m {
  body_length = length raw;
  client_vpc_id_length = length m.client_vpc_id;
  server_name_length = length m.server_name;
  client_process_flag_length = length m.client_process_flag;
  inner_msg_length = length m.inner_msg;
  handler_name_length = length m.handler_name;
  outer_req_id_length = length m.outer_req_id;
}

pub uint32_small : (n : ℕ) → n < 2 ^ 32 → uint32 n ≡ n
uint32_small n h = omega arith

module _ {rd : Reader} (st : IsStream rd) where
  pub length-Takes : (n : ℕ) → n < 2 ^ 32 → Takes st (read_uint32 rd) (put_uint32 (uint32 n)) n
  length-Takes n h = rw (uint32_small n h) (read_uint32-Takes st n h)

  pub text-Takes :
      (s : Text)
      → length s < 2 ^ 32
      → Takes st (read_text rd) (put_uint32 (uint32 (length s)) ++ s) (length s, s)
  text-Takes s h = rw (uint32_small (length s) h) (read_text-Takes st s h)

  pub decode_ids-Takes :
      (m₀ m : AgwMessage) (raw : Text)
      → IsSized m
      → length raw < 2 ^ 32
      → Takes st (decode_ids rd m₀) (encode_ids raw m) (record m₀ {
        body_length = length raw;
        req_id = m.req_id;
        message_type = m.message_type;
        message_direction = m.message_direction;
        caller = m.caller;
        client_ip = m.client_ip;
      })
  unfolding decode_ids encode_ids
  decode_ids-Takes m₀ m raw h fits = Takes-bind st _ _ _ _ _ _ (length-Takes _ fits) (
      Takes-bind st _ _ _ _ _ _ (read_uint64-Takes st _ h.req_id_fits) (
        Takes-bind st _ _ _ _ _ _ (read_uint8-Takes st _) (
          Takes-bind st _ _ _ _ _ _ (read_uint8-Takes st _) (
            Takes-bind st _ _ _ _ _ _ (read_uint8-Takes st _)
              (Takes-map st _ _ _ _ (read_uint64-Takes st _ h.client_ip_fits))))))

  pub decode_client-Takes :
      (m₀ m : AgwMessage)
      → IsSized m
      → Takes st (decode_client rd m₀) (encode_client m) (record m₀ {
        client_vpc_id_length = length m.client_vpc_id;
        client_vpc_id = m.client_vpc_id;
        server_name_length = length m.server_name;
        server_name = m.server_name;
        timeout_ms = m.timeout_ms;
        client_process_flag_length = length m.client_process_flag;
        client_process_flag = m.client_process_flag;
      })
  unfolding decode_client encode_client
  decode_client-Takes m₀ m h = Takes-bind st _ _ _ _ _ _ (text-Takes _ h.client_vpc_id_fits) (
      Takes-bind st _ _ _ _ _ _ (text-Takes _ h.server_name_fits) (
        Takes-bind st _ _ _ _ _ _ (read_uint32-Takes st _ h.timeout_ms_fits)
          (Takes-map st _ _ _ _ (text-Takes _ h.client_process_flag_fits))))

  pub decode_call-Takes :
      (m₀ m : AgwMessage)
      → IsSized m
      → Takes st (decode_call rd m₀) (encode_call m) (record m₀ {
        inner_code = m.inner_code;
        inner_msg_length = length m.inner_msg;
        inner_msg = m.inner_msg;
        connection_id = m.connection_id;
        handler_name_length = length m.handler_name;
        handler_name = m.handler_name;
        outer_req_id_length = length m.outer_req_id;
        outer_req_id = m.outer_req_id;
        version = m.version;
      })
  unfolding decode_call encode_call
  decode_call-Takes m₀ m h = Takes-bind st _ _ _ _ _ _ (read_uint32-Takes st _ h.inner_code_fits) (
      Takes-bind st _ _ _ _ _ _ (text-Takes _ h.inner_msg_fits) (
        Takes-bind st _ _ _ _ _ _ (read_uint32-Takes st _ h.connection_id_fits) (
          Takes-bind st _ _ _ _ _ _ (text-Takes _ h.handler_name_fits) (
            Takes-bind st _ _ _ _ _ _ (text-Takes _ h.outer_req_id_fits)
              (Takes-map st _ _ _ _ (read_uint32-Takes st _ h.version_fits))))))

  decode-Takes :
      (gz : Gzip) (m₀ m : AgwMessage) (raw : Text)
      → IsSized m
      → length raw < 2 ^ 32
      → Takes st
          (decode rd gz m₀)
          (encode_ids raw m ++ (encode_client m ++ (encode_call m ++ raw)))
          (set_body gz (received m raw) raw)
  unfolding decode decode_body received set_body is_compressed
  decode-Takes gz m₀ m raw h fits = Takes-bind st _ _ _ _ _ _ (decode_ids-Takes m₀ m raw h fits) (
      Takes-bind st _ _ _ _ _ _ (decode_client-Takes _ m h) (
        Takes-bind st _ _ _ _ _ _ (decode_call-Takes _ m h)
          (Takes-map st _ _ _ _ (read_bytes-Takes st raw _ refl))))

set_body-received :
    (gz : Gzip)
    → IsInverse gz
    → (m : AgwMessage) (raw : Text) → encode_body gz m ≡ (raw, none)
    → set_body gz (received m raw) raw ≡ received m raw
unfolding encode_body set_body received is_compressed
set_body-received gz inverse m raw e = elim (Bool-cases (is_compressed m)) [
  | inl packed ↦
      let back = decompress_by_gzip-compress_by_gzip gz inverse m.body raw (rw packed at e) in
      rw (packed, back)
  | inr plain ↦
      let same : m.body ≡ raw = ap (λ r. r.0) (rw plain at e) in
      rw plain (ap (λ b. record (received m raw) { body = b }) (sym same))
]

decode-finish :
    (rd : Reader) (st : IsStream rd) (gz : Gzip)
    → IsInverse gz
    → (m₀ m : AgwMessage) (r : Text × Option Text) → IsSized m
    → encode_body gz m ≡ r
    → length r.0 < 2 ^ 32
    → (finish m r).1 ≡ true
    → Takes st (decode rd gz m₀) (finish m r).0 (received m r.0)
unfolding finish encode_header
decode-finish rd st gz inverse m₀ m (raw, some x) h e fits sent = cc
decode-finish rd st gz inverse m₀ m (raw, none) h e fits sent =
    rw (← set_body-received gz inverse m raw e)
      (simp append_assoc (decode-Takes st gz m₀ m raw h fits))

-- For a message whose numbers and lengths fit their fields, a reader with any cuts and a compression that
-- is undone: `Decode` of the bytes of a successful `Encode` gives every field of the message and the
-- lengths of its texts, and leaves the bytes behind them in the stream.
pub decode-encode :
    (rd : Reader) (st : IsStream rd) (gz : Gzip)
    → IsInverse gz
    → (m₀ m : AgwMessage) → IsSized m
    → length (encode_body gz m).0 < 2 ^ 32
    → (encode gz m).1 ≡ true
    → (s : rd.State) (rest : Text) → st.pending s ≡ (encode gz m).0 ++ rest
    → (t : rd.State) × (decode rd gz m₀ s ≡ ok (received m (encode_body gz m).0, t))
      × (st.pending t ≡ rest)
unfolding encode Takes
decode-encode rd st gz inverse m₀ m h fits sent =
    decode-finish rd st gz inverse m₀ m (encode_body gz m) h refl fits sent
