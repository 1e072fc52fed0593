-- ===== src/Transport/Handler.antt =====
-- transport/handler.go: the handler of requests that come through the gateway. `json` is a parameter.
pub mod Admission
use aliyun_ahas.Common.{
  ℕ, Text, lit, List, Bool, true, false, Option, none, some, Result, ok, err, panic, diverge,
  if◌then◌else◌,
}
use aliyun_ahas.Service.{
  Context, nil, live, cancelled, Controller, LifeCycle0, new_controller, start,
}
use aliyun_ahas.Tools.Auth.{Keys}
use aliyun_ahas.Transport.Response.{Response, code_of, return_fail}
use aliyun_ahas.Transport.Request.{Request}
use aliyun_ahas.Transport.Interceptor.{Codec, RequestInterceptor, handle_chain, build_interceptor}

-- `json.Marshal` gives bytes and an error, `json.Unmarshal` a value or an error.
pub record Json : Type 0 where
  pub marshal_request : Request → Text × Option Text
  pub unmarshal_request : Text → Result Request
  pub marshal_response : Response → Text × Option Text
  pub unmarshal_response : Text → Result Response

-- `Interceptor` is none for nil.
pub record AgwRequestHandler : Type 0 where
  pub interceptor : Option (List RequestInterceptor)
  pub handler : Request → Result Response
  pub controller : Controller

-- `DoStart` and `DoStop`
abbrev pub agw_cycle : LifeCycle0 (Unit {0})
agw_cycle = record { do_start = λ w. (none, w); do_stop = λ w. (none, w) }

-- `NewCommonHandler`, which starts the controller.
unfoldable pub new_common_handler :
    Codec → Keys → ℕ → (Request → Result Response) → AgwRequestHandler
new_common_handler c keys unix_nano h = record {
  interceptor = some (build_interceptor c keys unix_nano);
  handler = h;
  controller = (start agw_cycle new_controller tt).1;
}

encode_bytes : Text × Option Text → Result Text
encode_bytes (bytes, none) = ok bytes
encode_bytes (bytes, some e) = err e

module _ (json : Json) where
  -- What the last lines of `Handle` make of a response.
  pub encode_response : Result Response → Result Text
  unfolding encode_bytes
  encode_response (ok r) = encode_bytes (json.marshal_response r)
  encode_response (err e) = err e
  encode_response panic = panic
  encode_response diverge = diverge

  intercept : Bool → Option (List RequestInterceptor) → Request → Option Response
  intercept debug none r = none
  intercept debug (some chain) r = if debug then none else handle_chain chain r

  -- The handler is called only where the interceptor lets the request pass.
  admit : Option Response → (Request → Result Response) → Request → Result Response
  admit (some refusal) h r = ok refusal
  admit none h r = h r

  handle_decoded : Bool → AgwRequestHandler → Result Request → Result Text
  unfolding encode_response intercept admit
  handle_decoded debug a (ok r) =
      encode_response (admit (intercept debug a.interceptor r) a.handler r)
  handle_decoded debug a (err e) = err e
  handle_decoded debug a panic = panic
  handle_decoded debug a diverge = diverge

  -- The `select` on the context; `Done` of a nil context panics.
  handle_at : Context → Bool → AgwRequestHandler → Text → Result Text
  unfolding handle_decoded
  handle_at nil debug a request = panic
  handle_at cancelled debug a request =
      let closed = code_of (lit "HandlerClosed") in
      encode_response (ok (return_fail closed closed.msg))
  handle_at live debug a request = handle_decoded debug a (json.unmarshal_request request)

  -- `Handle` of AgwRequestHandler, with `meta.DebugEnabled()`.
  pub agw_handle : Bool → AgwRequestHandler → Text → Result Text
  unfolding handle_at
  agw_handle debug a request = handle_at a.controller.ctx debug a request
