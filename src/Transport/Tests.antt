-- ===== src/Transport/Tests.antt =====
-- Runs of requests, on a small digest and a json that knows one request.
use aliyun_ahas.Common.{
  lit, text_eq, [], false, none, some, Result, ok, panic, ◌≡◌, ◌↔◌, refl, arith,
}
use aliyun_ahas.Transport.Response.{Response, return_success, text, leaf}
use aliyun_ahas.Transport.Request.{Request, Uri, add_header, new_request, new_uri}
use aliyun_ahas.Transport.Interceptor.{handle_chain, build_interceptor}
use aliyun_ahas.Transport.Interceptor.Accepted.{IsAuthentic, handle_accepts_iff}
use aliyun_ahas.Transport.Handler.{new_common_handler, encode_response, agw_handle}
use aliyun_ahas.Transport.Handler.Admission.{forged_request_refused}
use aliyun_ahas.Transport.Invoker.{do_invoker, receive, invoke}
use aliyun_ahas.Transport.Invoker.Delivery.{invoked_request_handled}
use aliyun_ahas.Transport.Samples.{codec, keys, signed, sent, signing_passes, soon, json, client}

handle_accepts_iff_example :
    (handle_chain (build_interceptor codec keys 0) new_request ≡ none)
    ↔ IsAuthentic codec keys new_request
handle_accepts_iff_example = handle_accepts_iff codec keys 0 new_request

new_request-unsigned : IsAuthentic codec keys new_request → ⊥
unfolding new_request add_header text_eq
new_request-unsigned h = let no_sign = h.has_sign in ground arith

abbrev answer_done : Request → Result Response
answer_done r = ok (return_success (leaf (text (lit "done"))))

abbrev answer_panic : Request → Result Response
answer_panic r = panic

forged_request_refused_example :
    agw_handle json false (new_common_handler codec keys 9000000 answer_done) []
    ≡ agw_handle json false (new_common_handler codec keys 9000000 answer_panic) []
forged_request_refused_example =
    forged_request_refused json codec keys 9000000 answer_done answer_panic [] new_request refl
      new_request-unsigned

abbrev uri : Uri
uri = new_uri (lit "vpc") (lit "10.0.0.1") (lit "7") (lit "GO_SDK") (lit "Topology") (lit "connect")

invoked_request_handled_example :
    (invoke json client (some (build_interceptor codec keys 5000000)) (lit "id") uri new_request 3
      ≡ receive json client
          (do_invoker json client (record uri { request_id = lit "id" }) (lit "{}") 3))
    × (agw_handle json false (new_common_handler codec keys 9000000 answer_done) (lit "{}")
        ≡ encode_response json (answer_done sent))
invoked_request_handled_example =
    invoked_request_handled json client codec keys 5000000 9000000 answer_done (lit "id") (lit "{}")
      uri new_request signed 3 (λ t. refl) soon signing_passes refl refl
