-- ===== src/Transport/Invoker.antt =====
-- transport/invoker.go and `Invoke` of transport/transport.go: requests to the gateway. The call of the
-- gateway's client is a function of the outside world `W`.
pub mod Delivery
use aliyun_ahas.Common.{
  ℕ, ◌%◌, ◌^◌, Text, lit, is_empty, List, Bool, true, false, Option, none, some, Result, ok, err,
  panic, diverge, if◌then◌else◌,
}
use aliyun_ahas.Gateway.Message.{all_compress}
use aliyun_ahas.Gateway.Client.{RpcMetadata}
use aliyun_ahas.Gateway.Ip.{atoi_bits}
use aliyun_ahas.Transport.Response.{Response}
use aliyun_ahas.Transport.Request.{Request, Uri, add_header}
use aliyun_ahas.Transport.Interceptor.{RequestInterceptor, invoke_chain, parses}
use aliyun_ahas.Transport.Handler.{Json}

-- What `Invoke` returns: a response and an error, nil or not.
abbrev pub Returned : Type 0
Returned = Option Response × Option Text

abbrev pub Client : Type 0 → Type 0
Client W = Text → RpcMetadata → Text → W → Result Text × W

-- The version of a call: that of the uri, or `AllCompress` where it is no number.
abbrev pub version_of : Text → ℕ
version_of v = if parses v then atoi_bits v % 2 ^ 32 else all_compress

module _ {W : Type 0} (json : Json) (client : Client W) where
  -- `doInvoker` of agwClientRequestInvoker
  pub do_invoker : Uri → Text → W → Result Text × W
  do_invoker uri json_param w =
      client uri.request_id
        (record {
          server_name = uri.server_name;
          handler_name = uri.handler_name;
          version = version_of uri.compress_version;
        })
        json_param w

  decoded : Result Response → W → Result Returned × W
  decoded (ok response) w = (ok (some response, none), w)
  decoded (err e) w = (ok (none, some e), w)
  decoded panic w = (panic, w)
  decoded diverge w = (diverge, w)

  pub receive : Result Text × W → Result Returned × W
  unfolding decoded
  receive (ok result, w) = decoded (json.unmarshal_response result) w
  receive (err e, w) = (ok (none, some e), w)
  receive (panic, w) = (panic, w)
  receive (diverge, w) = (diverge, w)

  send_encoded : Uri → Text × Option Text → W → Result Returned × W
  unfolding do_invoker receive
  send_encoded uri (bytes, some e) w = (ok (none, some e), w)
  send_encoded uri (bytes, none) w = receive (do_invoker uri bytes w)

  -- The part of `Invoke` behind the interceptor; `request_id` is the new UUID.
  send_passed : Text → Uri → Option Response × Request → W → Result Returned × W
  unfolding send_encoded
  send_passed request_id uri (some refusal, r) w = (ok (some refusal, some refusal.error), w)
  send_passed request_id uri (none, r) w =
      send_encoded (record uri { request_id = request_id })
        (json.marshal_request (add_header r (lit "rid") request_id)) w

  -- `Invoke` of agwRequestInvoker, with `none` for no interceptor.
  unfoldable pub invoke :
      Option (List RequestInterceptor) → Text → Uri → Request → W → Result Returned × W
  unfolding send_passed
  invoke none request_id uri r w = send_passed request_id uri (none, r) w
  invoke (some chain) request_id uri r w = send_passed request_id uri (invoke_chain chain r) w

-- What `Invoke` of Transport adds to a request: the process, the user if it is known, the client, the kind
-- and the version of the SDK.
pub identify : Text → Text → Text → Text → Text → Request → Request
identify pid uid cid go_sdk version r =
    let with_pid = add_header r (lit "pid") pid in
    let with_uid = if is_empty uid then with_pid else add_header with_pid (lit "uid") uid in
    add_header (add_header (add_header with_uid (lit "aid") cid) (lit "type") go_sdk) (lit "v")
      version
