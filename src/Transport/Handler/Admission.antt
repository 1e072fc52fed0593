-- ===== src/Transport/Handler/Admission.antt =====
-- Which requests reach the code of a handler (transport/handler.go).
use aliyun_ahas.Common.{ℕ, Text, lit, Bool, false, Option-cases, Result, ok, ◌≡◌, inl, inr, refl}
use aliyun_ahas.Service.{is_stopped, start, stop}
use aliyun_ahas.Tools.Auth.{Keys}
use aliyun_ahas.Transport.Response.{Response, code_of, return_fail}
use aliyun_ahas.Transport.Request.{Request}
use aliyun_ahas.Transport.Interceptor.{Codec, handle_chain, build_interceptor}
use aliyun_ahas.Transport.Interceptor.Accepted.{IsAuthentic, handle_accepts_iff}
use aliyun_ahas.Transport.Handler.{
  Json, agw_cycle, new_common_handler, encode_response, intercept, admit, handle_decoded, handle_at,
  agw_handle,
}

-- A new common handler, outside debugging, answers an authentic request by its handler.
pub authentic_request_handled :
    (json : Json) (c : Codec) (keys : Keys) (now : ℕ) (h : Request → Result Response)
    (request : Text) (r : Request)
    → json.unmarshal_request request ≡ ok r
    → IsAuthentic c keys r
    → agw_handle json false (new_common_handler c keys now h) request ≡ encode_response json (h r)
unfolding agw_handle handle_at handle_decoded intercept admit new_common_handler start is_stopped
authentic_request_handled json c keys now h request r e authentic =
    let passes = (handle_accepts_iff c keys now r).1 authentic in rw e (rw passes refl)

-- A request that is not authentic does not reach the handler: the answer is the same with any other
-- handler in its place.
pub forged_request_refused :
    (json : Json) (c : Codec) (keys : Keys) (now : ℕ) (h other : Request → Result Response)
    (request : Text) (r : Request)
    → json.unmarshal_request request ≡ ok r
    → (IsAuthentic c keys r → ⊥)
    → agw_handle json false (new_common_handler c keys now h) request
      ≡ agw_handle json false (new_common_handler c keys now other) request
unfolding agw_handle handle_at handle_decoded intercept admit new_common_handler start is_stopped
forged_request_refused json c keys now h other request r e forged =
    elim (Option-cases (handle_chain (build_interceptor c keys now) r)) [
      | inl passes ↦ absurd (forged ((handle_accepts_iff c keys now r).0 passes))
      | inr (x, refused) ↦ rw e (rw refused refl)
    ]

-- After `Stop`, a common handler answers every text, also one that is no request, with the response for
-- a closed handler, debugging or not.
pub stopped_handler_closed :
    (json : Json) (c : Codec) (keys : Keys) (now : ℕ) (h : Request → Result Response) (debug : Bool)
    (request : Text)
    → let a = new_common_handler c keys now h in
      let stopped = record a { controller = (stop agw_cycle a.controller tt).1 } in
      agw_handle json debug stopped request
      ≡ encode_response json
          (ok (return_fail (code_of (lit "HandlerClosed")) (code_of (lit "HandlerClosed")).msg))
unfolding agw_handle handle_at new_common_handler start stop is_stopped
stopped_handler_closed json c keys now h debug request = refl
