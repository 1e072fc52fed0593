-- ===== src/Transport/Samples.antt =====
-- A small digest, keys, a json that knows one request, and a response that connects.
use aliyun_ahas.Common.{
  ℕ, ◌+◌, ◌<◌, ◌^◌, Text, lit, text_eq, [], ◌∷◌, Bool, Option, none, Result, ok, ◌≡◌, refl, arith,
  if◌then◌else◌,
}
use aliyun_ahas.Tools.Auth.{Keys}
use aliyun_ahas.Transport.Response.{Response, return_success, Leaf, nil, text, leaf, object}
use aliyun_ahas.Transport.Request.{at_key, Request, add_header, add_param, new_request}
use aliyun_ahas.Transport.Interceptor.{
  Codec, invoke_chain, build_interceptor, auth_do_invoker, timestamp_do_invoker, sign_data,
  get_current_time_in_millis,
}
use aliyun_ahas.Transport.Interceptor.Accepted.{
  IsAuthentic, handle_accepts_iff, invoked_request_passes,
}
use aliyun_ahas.Transport.Handler.{Json}
use aliyun_ahas.Transport.Invoker.{Client}

abbrev pub codec : Codec
codec = record {
  digest = λ s. 100 ∷ s;
  marshal = λ m. (at_key m (lit "ts"), none);
  syntax_error = λ s. s;
}

abbrev pub keys : Keys
keys = record { soleil_key = lit "ak"; lune_key = lit "sk" }

abbrev pub signed : Request
signed = (invoke_chain (build_interceptor codec keys 5000000) new_request).1

abbrev pub sent : Request
sent = add_header signed (lit "rid") (lit "id")

pub signing_passes :
    invoke_chain (build_interceptor codec keys 5000000) new_request ≡ (none, signed)
unfolding invoke_chain build_interceptor auth_do_invoker timestamp_do_invoker sign_data new_request
    add_header add_param text_eq
signing_passes = refl

pub soon : get_current_time_in_millis 5000000 < 2 ^ 63
unfolding get_current_time_in_millis
soon = omega arith

pub sent-IsAuthentic : IsAuthentic codec keys sent
sent-IsAuthentic = (handle_accepts_iff codec keys 9000000 sent).0 (
    invoked_request_passes codec keys 5000000 9000000 new_request signed (lit "id") (λ t. refl) soon
      signing_passes)

abbrev pub read_request : Text → Result Request
read_request [] = ok new_request
read_request (c ∷ s) = ok sent

abbrev pub json : Json
json = record {
  marshal_request = λ q. (lit "{}", none);
  unmarshal_request = read_request;
  marshal_response = λ r. (r.error, none);
  unmarshal_response = λ s. ok (return_success (leaf (text s)));
}

abbrev pub fields : Bool → Text → Leaf
fields with_aid key =
    if text_eq key (lit "uid")
    then text (lit "u")
    else if text_eq key (lit "tid")
    then text (lit "t")
    else if text_eq key (lit "aid")
    then (if with_aid then text (lit "a") else nil)
    else text (lit "k")

abbrev pub connected : Bool → Response
connected with_aid = return_success (object (fields with_aid))

abbrev pub save_fine : Text → Text → ℕ → Option Text × ℕ
save_fine ak sk w = (none, w + 1)

-- The world counts the calls.
abbrev pub client : Client ℕ
client id m s w = (ok s, w + 1)
