-- ===== src/Transport/Invoker/Delivery.antt =====
-- From the invoker to a handler (transport/invoker.go, transport/handler.go).
use aliyun_ahas.Common.{
  ℕ, ◌^◌, ◌<◌, Text, lit, is_empty, List, false, none, some, Result, ok, ◌≡◌, refl,
}
use aliyun_ahas.Tools.Auth.{Keys}
use aliyun_ahas.Transport.Response.{Response}
use aliyun_ahas.Transport.Request.{Request, Uri, add_header}
use aliyun_ahas.Transport.Interceptor.{
  Codec, RequestInterceptor, invoke_chain, build_interceptor, get_current_time_in_millis,
}
use aliyun_ahas.Transport.Interceptor.Accepted.{handle_accepts_iff, invoked_request_passes}
use aliyun_ahas.Transport.Handler.{Json, new_common_handler, encode_response, agw_handle}
use aliyun_ahas.Transport.Handler.Admission.{authentic_request_handled}
use aliyun_ahas.Transport.Invoker.{Client, do_invoker, receive, send_encoded, send_passed, invoke}

-- A request that an interceptor refuses is not sent: the outside world is as before, and the caller gets
-- the refusal with its text as the error, whatever the client would do.
pub refused_request_not_sent :
    {W : Type 0} (json : Json) (client : Client W) (chain : List RequestInterceptor)
    (request_id : Text) (uri : Uri) (r s : Request) (x : Response) (w : W)
    → invoke_chain chain r ≡ (some x, s)
    → invoke json client (some chain) request_id uri r w ≡ (ok (some x, some x.error), w)
unfolding invoke send_passed
refused_request_not_sent json client chain request_id uri r s x w e = rw e refl

-- A request that passes the interceptors of the invoker is sent by one call of the client, under the new
-- id. Where the digest is never empty, the clock fits an int64, json makes a text of what is sent and gives it back, and the other side has the same keys,
-- a common handler there answers that text by its handler's response to the request as it was sent.
pub invoked_request_handled :
    {W : Type 0} (json : Json) (client : Client W) (c : Codec) (keys : Keys) (now later : ℕ)
    (h : Request → Result Response) (request_id bytes : Text) (uri : Uri) (r s : Request) (w : W)
    → ((t : Text) → is_empty (c.digest t) ≡ false)
    → get_current_time_in_millis now < 2 ^ 63
    → invoke_chain (build_interceptor c keys now) r ≡ (none, s)
    → let sent = add_header s (lit "rid") request_id in
      json.marshal_request sent ≡ (bytes, none)
      → json.unmarshal_request bytes ≡ ok sent
      → (invoke json client (some (build_interceptor c keys now)) request_id uri r w
          ≡ receive json client
              (do_invoker json client (record uri { request_id = request_id }) bytes w))
        × (agw_handle json false (new_common_handler c keys later h) bytes
            ≡ encode_response json (h sent))
unfolding invoke send_passed send_encoded
invoked_request_handled json client c keys now later h request_id bytes uri r s w digests time e
      marshals decodes =
    let sent = add_header s (lit "rid") request_id in
    let passes = invoked_request_passes c keys now later r s request_id digests time e in
    let authentic = (handle_accepts_iff c keys later sent).0 passes in
    (
      rw e (rw marshals refl),
      authentic_request_handled json c keys later h bytes sent decodes authentic,
    )
