-- ===== src/Gateway/Codec/Truncated.antt =====
-- A message that the stream cuts short is an error (gateway/protocol.go).
use aliyun_ahas.Common.{
  ◌<◌, ◌^◌, ◌≡◌, refl, sym, ap, Text, [], ◌++◌, append_assoc, Option, none, some, true, length,
  length-append, err, arith,
}
use aliyun_ahas.Tools.Gzip.{Gzip}
use aliyun_ahas.Gateway.Message.{AgwMessage, new_agw_message}
use aliyun_ahas.Gateway.Wire.{put_uint32, length-put_uint}
use aliyun_ahas.Gateway.Stream.{Reader, IsStream}
use aliyun_ahas.Gateway.Decoder.{read_uint8-Takes, read_uint32-Takes, read_uint64-Takes, read_text}
use aliyun_ahas.Gateway.Decoder.Starves.{
  Starves, Starves-bind, Starves-map, read_bytes-Starves, read_uint8-Starves, read_uint32-Starves,
  read_uint64-Starves, read_text-Starves,
}
use aliyun_ahas.Gateway.Codec.{
  uint32, decode_ids, decode_client, decode_call, decode_body, decode, encode_ids, encode_client,
  encode_call, encode_header, encode_body, finish, encode,
}
use aliyun_ahas.Gateway.Codec.RoundTrip.{
  IsSized, uint32_small, length-Takes, text-Takes, decode_ids-Takes, decode_client-Takes,
  decode_call-Takes,
}

module _ {rd : Reader} (st : IsStream rd) where
  text-Starves :
      (s : Text)
      → length s < 2 ^ 32
      → Starves st (read_text rd) (put_uint32 (uint32 (length s)) ++ s)
  text-Starves s h = rw (uint32_small (length s) h) (read_text-Starves st s h)

  decode_ids-Starves :
      (m₀ m : AgwMessage) (raw : Text)
      → IsSized m
      → length raw < 2 ^ 32
      → Starves st (decode_ids rd m₀) (encode_ids raw m)
  unfolding decode_ids encode_ids
  decode_ids-Starves m₀ m raw h fits =
      Starves-bind st _ _ _ _ _ (length-Takes st _ fits) (read_uint32-Starves st _) (
        Starves-bind st _ _ _ _ _ (read_uint64-Takes st _ h.req_id_fits) (read_uint64-Starves st _)
          (Starves-bind st _ _ _ _ _ (read_uint8-Takes st _) (read_uint8-Starves st _) (
            Starves-bind st _ _ _ _ _ (read_uint8-Takes st _) (read_uint8-Starves st _) (
              Starves-bind st _ _ _ _ _ (read_uint8-Takes st _) (read_uint8-Starves st _)
                (Starves-map st _ _ _ (read_uint64-Starves st _))))))

  decode_client-Starves :
      (m₀ m : AgwMessage) → IsSized m → Starves st (decode_client rd m₀) (encode_client m)
  unfolding decode_client encode_client
  decode_client-Starves m₀ m h =
      Starves-bind st _ _ _ _ _ (text-Takes st _ h.client_vpc_id_fits)
        (text-Starves _ h.client_vpc_id_fits)
        (Starves-bind st _ _ _ _ _ (text-Takes st _ h.server_name_fits)
          (text-Starves _ h.server_name_fits)
          (Starves-bind st _ _ _ _ _ (read_uint32-Takes st _ h.timeout_ms_fits)
            (read_uint32-Starves st _)
            (Starves-map st _ _ _ (text-Starves _ h.client_process_flag_fits))))

  decode_call-Starves :
      (m₀ m : AgwMessage) → IsSized m → Starves st (decode_call rd m₀) (encode_call m)
  unfolding decode_call encode_call
  decode_call-Starves m₀ m h =
      Starves-bind st _ _ _ _ _ (read_uint32-Takes st _ h.inner_code_fits)
        (read_uint32-Starves st _)
        (Starves-bind st _ _ _ _ _ (text-Takes st _ h.inner_msg_fits)
          (text-Starves _ h.inner_msg_fits)
          (Starves-bind st _ _ _ _ _ (read_uint32-Takes st _ h.connection_id_fits)
            (read_uint32-Starves st _)
            (Starves-bind st _ _ _ _ _ (text-Takes st _ h.handler_name_fits)
              (text-Starves _ h.handler_name_fits)
              (Starves-bind st _ _ _ _ _ (text-Takes st _ h.outer_req_id_fits)
                (text-Starves _ h.outer_req_id_fits)
                (Starves-map st _ _ _ (read_uint32-Starves st _))))))

  decode-Starves :
      (gz : Gzip) (m₀ m : AgwMessage) (raw : Text)
      → IsSized m
      → length raw < 2 ^ 32
      → Starves st
          (decode rd gz m₀)
          (encode_ids raw m ++ (encode_client m ++ (encode_call m ++ raw)))
  unfolding decode decode_body
  decode-Starves gz m₀ m raw h fits =
      Starves-bind st _ _ _ _ _ (decode_ids-Takes st m₀ m raw h fits)
        (decode_ids-Starves m₀ m raw h fits)
        (Starves-bind st _ _ _ _ _ (decode_client-Takes st _ m h) (decode_client-Starves _ m h) (
          Starves-bind st _ _ _ _ _ (decode_call-Takes st _ m h) (decode_call-Starves _ m h)
            (Starves-map st _ _ _ (read_bytes-Starves st raw _ refl))))

decode-finish_cut :
    (rd : Reader) (st : IsStream rd) (gz : Gzip) (m₀ m : AgwMessage) (r : Text × Option Text)
    → IsSized m
    → length r.0 < 2 ^ 32
    → (finish m r).1 ≡ true
    → Starves st (decode rd gz m₀) (finish m r).0
unfolding finish encode_header
decode-finish_cut rd st gz m₀ m (raw, some x) h fits sent = cc
decode-finish_cut rd st gz m₀ m (raw, none) h fits sent =
    simp append_assoc (decode-Starves st gz m₀ m raw h fits)

-- For a message whose numbers and lengths fit their fields: where the stream ends inside its encoding, at any byte of it, `Decode` gives an error: no
-- part of a message is taken for a message.
pub decode_truncated :
    (rd : Reader) (st : IsStream rd) (gz : Gzip) (m₀ m : AgwMessage)
    → IsSized m
    → length (encode_body gz m).0 < 2 ^ 32
    → (encode gz m).1 ≡ true
    → (s : rd.State) (missing : Text) → 0 < length missing
    → (encode gz m).0 ≡ st.pending s ++ missing
    → (e : Text) × (decode rd gz m₀ s ≡ err e)
unfolding encode Starves
decode_truncated rd st gz m₀ m h fits sent =
    decode-finish_cut rd st gz m₀ m (encode_body gz m) h fits sent

encode_ids_some : (raw : Text) (m : AgwMessage) → 0 < length (encode_ids raw m)
unfolding encode_ids
encode_ids_some raw m = rw length-append (omega (arith, length-put_uint 4 (uint32 (length raw))))

-- At the end of the stream there is no message to decode.
pub decode_at_end :
    (rd : Reader) (st : IsStream rd) (gz : Gzip) (m₀ : AgwMessage) (s : rd.State)
    → st.pending s ≡ []
    → (e : Text) × (decode rd gz m₀ s ≡ err e)
unfolding Starves
decode_at_end rd st gz m₀ s empty =
    let more = encode_client new_agw_message ++ (encode_call new_agw_message ++ []) in
    let ids = encode_ids [] new_agw_message in
    let some_left : 0 < length (ids ++ more) =
      rw length-append (omega (arith, encode_ids_some [] new_agw_message)) in
    decode-Starves st gz m₀ new_agw_message [] (omega arith) (omega arith) s (ids ++ more) some_left
      (ap (λ z. z ++ (ids ++ more)) (sym empty))
