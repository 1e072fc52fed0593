-- ===== src/Transport/Interceptor.antt =====
-- transport/interceptor.go: the signature and the timestamp of a request, on both sides. The digest and
-- `json.Marshal` of a map of strings are parameters, as is the text of an error of strconv.
pub mod Accepted
use aliyun_ahas.Common.{
  ℕ, ◌+◌, ◌/◌, ◌^◌, Text, lit, [], ◌∷◌, is_empty, text_eq, decimal, unsigned_value, List, Bool,
  true, false, not, ◌&&◌, ◌||◌, Option, none, some, ltb, leb, ◌==◌, if◌then◌else◌,
}
use aliyun_ahas.Tools.Auth.{Keys, sign, auth}
use aliyun_ahas.Transport.Response.{Response, code_of, CodeType, return_fail}
use aliyun_ahas.Transport.Request.{Map, at_key, Request, add_header, add_param}

-- `marshal` gives the bytes and the error of `json.Marshal`; `syntax_error` the error of `ParseInt` for
-- a text.
pub record Codec : Type 0 where
  pub digest : Text → Text
  pub marshal : Map → Text × Option Text
  pub syntax_error : Text → Text

abbrev pub sign_data_key : Text
sign_data_key = lit "sd"

abbrev pub soleil_key_name : Text
soleil_key_name = lit "ak"

abbrev pub sign_key : Text
sign_key = lit "sn"

abbrev pub timestamp_key : Text
timestamp_key = lit "ts"

-- `doHandler` gives the response of a refusal, or `none` where the request passes; `doInvoker` also
-- the request with what it adds.
pub record RequestInterceptor : Type 0 where
  pub do_handler : Request → Option Response
  pub do_invoker : Request → Option Response × Request

-- `Handle` of a chain, in its order.
unfoldable pub handle_chain : List RequestInterceptor → Request → Option Response
handle_chain [] r = none
handle_chain (i ∷ chain) r = elim (i.do_handler r) [
  | some refusal ↦ some refusal
  | none ↦ handle_chain chain r
]

invoke_next :
    Option Response × Request → (Request → Option Response × Request) → Option Response × Request
invoke_next (some refusal, r) rest = (some refusal, r)
invoke_next (none, r) rest = rest r

-- `Invoke` of a chain.
unfoldable pub invoke_chain : List RequestInterceptor → Request → Option Response × Request
unfolding invoke_next
invoke_chain [] r = (none, r)
invoke_chain (i ∷ chain) r = invoke_next (i.do_invoker r) (λ s. invoke_chain chain s)

abbrev pub forbidden : Text → Response
forbidden e = return_fail (code_of (lit "Forbidden")) e

module _ (c : Codec) (keys : Keys) where
  -- The text that is signed, and the error of its making: a header, or the parameters.
  unfoldable pub sign_data : Request → Text × Option Text
  sign_data r =
      if is_empty (at_key r.headers sign_data_key)
      then c.marshal r.params
      else (at_key r.headers sign_data_key, none)

  check_signed : Text → Text × Option Text → Option Response
  check_signed received_sign (text, some e) = some (forbidden (lit "invalid request parameters"))
  check_signed received_sign (text, none) =
      if auth c.digest keys received_sign text
      then none
      else some (forbidden (lit "illegal request"))

  -- `doHandler` of authInterceptor
  pub auth_do_handler : Request → Option Response
  unfolding check_signed sign_data
  auth_do_handler r =
      let received_sign = at_key r.headers sign_key in
      let soleil_key = at_key r.headers soleil_key_name in
      if is_empty received_sign
      then some (forbidden (lit "missing sign"))
      else if not (is_empty soleil_key) && not (text_eq soleil_key keys.soleil_key)
      then some (forbidden (lit "soleilKey not matched"))
      else check_signed received_sign (sign_data r)

  add_sign : Request → Text × Option Text → Option Response × Request
  add_sign r (text, some e) = (some (return_fail (code_of (lit "EncodeError")) e), r)
  add_sign r (text, none) = (none, add_header r sign_key (sign c.digest keys text))

  -- `doInvoker` of authInterceptor
  unfoldable pub auth_do_invoker : Request → Option Response × Request
  unfolding add_sign sign_data
  auth_do_invoker r =
      if is_empty keys.soleil_key || is_empty keys.lune_key
      then (
        some (return_fail (code_of (lit "TokenNotFound")) (lit "soleilKey or luneKey not found")),
        r,
      )
      else let keyed = add_header r soleil_key_name keys.soleil_key in
        add_sign keyed (sign_data keyed)

-- Whether `strconv.ParseInt(s, 10, 64)` gives no error.
below_bound : ℕ → Option ℕ → Bool
below_bound bound none = false
below_bound bound (some n) = ltb n bound

unfoldable pub parses : Text → Bool
unfolding below_bound
parses [] = false
parses (d ∷ s) =
    if d == b'-'
    then below_bound (2 ^ 63 + 1) (unsigned_value s)
    else if d == b'+'
    then below_bound (2 ^ 63) (unsigned_value s)
    else below_bound (2 ^ 63) (unsigned_value (d ∷ s))

-- `doHandler` of timestampInterceptor
pub timestamp_do_handler : Codec → Request → Option Response
timestamp_do_handler c r =
    let invalid = code_of (lit "InvalidTimestamp") in
    let request_time = at_key r.params timestamp_key in
    if is_empty request_time
    then some (return_fail invalid invalid.msg)
    else if parses request_time
    then none
    else some (return_fail invalid (c.syntax_error request_time))

-- `getCurrentTimeInMillis`, from the nanoseconds of the clock, which are not negative.
unfoldable pub get_current_time_in_millis : ℕ → ℕ
get_current_time_in_millis unix_nano = unix_nano / 1000

-- `doInvoker` of timestampInterceptor
unfoldable pub timestamp_do_invoker : ℕ → Request → Option Response × Request
timestamp_do_invoker unix_nano r =
    (none, add_param r timestamp_key (decimal (get_current_time_in_millis unix_nano)))

-- `buildInterceptor`: the timestamp, then the signature.
unfoldable pub build_interceptor : Codec → Keys → ℕ → List RequestInterceptor
unfolding auth_do_handler auth_do_invoker timestamp_do_handler timestamp_do_invoker
build_interceptor c keys unix_nano =
    record { do_handler = timestamp_do_handler c; do_invoker = timestamp_do_invoker unix_nano }
    ∷ record { do_handler = auth_do_handler c keys; do_invoker = auth_do_invoker c keys }
    ∷ []
