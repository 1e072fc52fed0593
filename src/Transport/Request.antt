-- ===== src/Transport/Request.antt =====
-- transport/request.go: requests. A Go map of strings is the function that gives what stands under a
-- key.
use aliyun_ahas.Common.{
  Text, lit, is_empty, text_eq, decimal, [], Option, none, some, if◌then◌else◌,
}
use aliyun_ahas.Gateway.Message.{no_compress}

abbrev pub Map : Type 0
Map = Text → Option Text

abbrev value_or_empty : Option Text → Text
value_or_empty none = []
value_or_empty (some v) = v

-- `m[key]`, which is "" for a missing key.
abbrev pub at_key : Map → Text → Text
at_key m key = value_or_empty (m key)

abbrev pub put : Map → Text → Text → Map
put m key value k = if text_eq key k then some value else m k

pub record Request : Type 0 where
  pub headers : Map
  pub params : Map

-- `AddHeader`
unfoldable pub add_header : Request → Text → Text → Request
add_header r key value = if is_empty key then r else record r { headers = put r.headers key value }

-- `AddParam`
unfoldable pub add_param : Request → Text → Text → Request
add_param r key value = if is_empty key then r else record r { params = put r.params key value }

-- `NewRequest`
unfoldable pub new_request : Request
new_request = add_header (record { headers = λ k. none; params = λ k. none }) (lit "FR") (lit "C")

pub record Uri : Type 0 where
  pub server_name : Text
  pub handler_name : Text
  pub vpc_id : Text
  pub ip : Text
  pub pid : Text
  pub tag : Text
  pub request_id : Text
  pub compress_version : Text

-- `NewUri`, with the values that meta gives.
unfoldable pub new_uri : Text → Text → Text → Text → Text → Text → Uri
new_uri vpc_id ip pid go_sdk server_name handler_name = record {
  server_name = server_name;
  handler_name = handler_name;
  vpc_id = vpc_id;
  ip = ip;
  pid = pid;
  tag = go_sdk;
  request_id = [];
  compress_version = decimal no_compress;
}
