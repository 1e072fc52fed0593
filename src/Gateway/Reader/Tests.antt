-- ===== src/Gateway/Reader/Tests.antt =====
-- Runs of the reader.
use aliyun_ahas.Common.{
  ◌≡◌, refl, Text, lit, text_eq, List, [], ◌∷◌, map, none, some, Result, ok, arith, if◌then◌else◌,
}
use aliyun_ahas.Gateway.Message.{AgwMessage, new_agw_message}
use aliyun_ahas.Gateway.Codec.RoundTrip.{received}
use aliyun_ahas.Gateway.Codec.Samples.{
  byte_reader, byte_reader-IsStream, marker, marker-IsInverse, marker-encodes, marker-fits,
  compressed_request,
}
use aliyun_ahas.Gateway.Reader.{Handlers, reply, react, handle_request, closed_on, run_reader}
use aliyun_ahas.Gateway.Reader.Replies.{IsReplyTo, business_request_answered}
use aliyun_ahas.Gateway.Reader.Serving.{wires, IsSent, reaction, reader_serves_each}

abbrev echo : Text → Result Text
echo s = ok s

abbrev handlers : Handlers
handlers name = if text_eq name (lit "handler") then some echo else none

abbrev heartbeat : AgwMessage
heartbeat = record new_agw_message { message_type = 1; message_direction = 1 }

business_request_answered_example :
    (r : AgwMessage) × (react handlers compressed_request ≡ reply r)
    × IsReplyTo compressed_request r
unfolding text_eq
business_request_answered_example =
    business_request_answered handlers compressed_request refl refl (ground arith, ground arith)

heartbeat-IsSent : IsSent marker handlers heartbeat
unfolding react received
heartbeat-IsSent = record {
  sized = ground arith;
  fits = marker-fits heartbeat (omega arith);
  encodes = marker-encodes heartbeat;
  returns = λ e. ground arith;
  goes_on = λ e. ground arith;
}

request-IsSent : IsSent marker handlers compressed_request
unfolding react handle_request received text_eq
request-IsSent = record {
  sized = ground arith;
  fits = marker-fits compressed_request (omega arith);
  encodes = marker-encodes compressed_request;
  returns = λ e. ground arith;
  goes_on = λ e. ground arith;
}

abbrev stream : List AgwMessage
stream = compressed_request ∷ heartbeat ∷ []

reader_serves_each_example :
    (e : Text) × (run_reader byte_reader marker handlers 3 (wires marker stream)
      ≡ (map (reaction marker handlers) stream, closed_on e))
reader_serves_each_example =
    reader_serves_each byte_reader byte_reader-IsStream marker marker-IsInverse handlers stream
      (request-IsSent, (heartbeat-IsSent, tt)) (wires marker stream) refl
