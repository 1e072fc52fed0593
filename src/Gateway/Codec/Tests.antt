-- ===== src/Gateway/Codec/Tests.antt =====
-- Runs of the codec on a compressed request.
use aliyun_ahas.Common.{◌≡◌, ◌⊎◌, refl, lit, Text, ◌++◌, take, drop, err, ok, arith}
use aliyun_ahas.Tools.Gzip.{compress_by_gzip}
use aliyun_ahas.Gateway.Wire.{put_uint}
use aliyun_ahas.Gateway.Message.{AgwMessage, new_agw_message}
use aliyun_ahas.Gateway.Codec.{
  decode, encode, encode_body, encode_header, encode_ids, encode_client, encode_call, finish,
  is_compressed,
}
use aliyun_ahas.Gateway.Codec.RoundTrip.{IsSized, received, decode-encode}
use aliyun_ahas.Gateway.Codec.Total.{decode_returns}
use aliyun_ahas.Gateway.Codec.Truncated.{decode_truncated}
use aliyun_ahas.Gateway.Codec.Samples.{
  byte_reader, byte_reader-IsStream, marker, marker-IsInverse, marker-encodes, marker-fits,
  compressed_request,
}

abbrev bytes : Text
bytes = (encode marker compressed_request).0

sized : IsSized compressed_request
sized = ground arith

decode-encode_example :
    (t : Text) × (decode byte_reader marker new_agw_message (bytes ++ lit "more")
      ≡ ok (received compressed_request (encode_body marker compressed_request).0, t))
    × (t ≡ lit "more")
decode-encode_example =
    decode-encode byte_reader byte_reader-IsStream marker marker-IsInverse new_agw_message
      compressed_request sized (marker-fits compressed_request (omega arith))
      (marker-encodes compressed_request) (bytes ++ lit "more") (lit "more") refl

decode_returns_example :
    ((r : AgwMessage × Text) × (decode byte_reader marker new_agw_message (lit "no message")
        ≡ ok r))
    ⊎ ((e : Text) × (decode byte_reader marker new_agw_message (lit "no message") ≡ err e))
decode_returns_example = decode_returns byte_reader marker new_agw_message (lit "no message")

decode_truncated_example :
    (e : Text) × (decode byte_reader marker new_agw_message (take 40 bytes) ≡ err e)
unfolding encode encode_body is_compressed compress_by_gzip finish encode_header encode_ids
    encode_client encode_call put_uint
decode_truncated_example =
    decode_truncated byte_reader byte_reader-IsStream marker new_agw_message compressed_request
      sized (marker-fits compressed_request (omega arith)) (marker-encodes compressed_request)
      (take 40 bytes) (drop 40 bytes) (omega arith) refl
