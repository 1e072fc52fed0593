-- ===== src/Transport/Response.antt =====
-- transport/response.go: the codes and the responses.
pub mod Codes
use aliyun_ahas.Common.{
  ℕ, Text, lit, text_eq, List, [], ◌∷◌, Bool, true, false, ◌&&◌, Option, none, some, ◌==◌,
  if◌then◌else◌,
}

pub record CodeType : Type 0 where
  pub code : ℕ
  pub msg : Text

abbrev entry : ℕ → Text → CodeType
entry c m = record { code = c; msg = m }

-- `Code`
abbrev pub codes : List (Text × CodeType)
codes =
    (lit "OK", entry 200 (lit "success"))
    ∷ (lit "InvalidTimestamp", entry 401 (lit "invalid timestamp"))
    ∷ (lit "Forbidden", entry 403 (lit "forbidden"))
    ∷ (lit "HandlerNotFound", entry 404 (lit "request handler not found"))
    ∷ (lit "TokenNotFound", entry 405 (lit "access token not found"))
    ∷ (lit "ServiceNotOpened", entry 410 (lit "ahas service not opened"))
    ∷ (lit "ServiceNotAuthorized", entry 411 (lit "ahas service not authorized"))
    ∷ (lit "ServerError", entry 500 (lit "server error"))
    ∷ (lit "HandlerClosed", entry 501 (lit "handler closed"))
    ∷ (lit "Timeout", entry 510 (lit "timeout"))
    ∷ (lit "Uninitialized", entry 511 (lit "uninitialized"))
    ∷ (lit "EncodeError", entry 512 (lit "encode error"))
    ∷ (lit "DecodeError", entry 513 (lit "decode error"))
    ∷ (lit "FileNotFound", entry 514 (lit "file not found"))
    ∷ (lit "DownloadError", entry 515 (lit "download file error"))
    ∷ (lit "DeployError", entry 516 (lit "deploy file error"))
    ∷ (lit "ServiceSwitchError", entry 517 (lit "service switch error"))
    ∷ (lit "Upgrading", entry 518 (lit "service is upgrading"))
    ∷ (lit "ParameterEmpty", entry 600 (lit "parameter is empty"))
    ∷ (lit "ParameterTypeError", entry 601 (lit "parameter type error"))
    ∷ (lit "FaultInjectCmdError", entry 701 (lit "cannot handle the faultInject cmd"))
    ∷ (lit "FaultInjectExecuteError", entry 702 (lit "execute faultInject error"))
    ∷ (lit "FaultInjectNotSupport", entry 703 (lit "the inject type not support"))
    ∷ (lit "JavaAgentCmdError", entry 704 (lit "cannot handle the javaagent cmd"))
    ∷ []

find_code : List (Text × CodeType) → Text → CodeType
find_code [] name = entry 0 []
find_code ((n, c) ∷ rest) name =
    let other = find_code rest name in if text_eq n name then c else other

-- `Code[name]`; a missing name gives the zero value.
unfoldable pub code_of : Text → CodeType
unfolding find_code
code_of name = find_code codes name

-- A `Result`, as far as the package looks into one: nil, a string, a map of such values by their keys
-- (nil for a missing one), or anything else.
pub data Leaf : Type 0 where
  nil : Leaf
  text : Text → Leaf
  other : Leaf

pub data Value : Type 0 where
  leaf : Leaf → Value
  object : (Text → Leaf) → Value

pub record Response : Type 0 where
  pub code : ℕ
  pub success : Bool
  pub error : Text
  pub result : Value

same_code : CodeType → CodeType → Bool
same_code a b = a.code == b.code && text_eq a.msg b.msg

-- `Return`
pub return_code : CodeType → Response
unfolding same_code
return_code c =
    if same_code c (code_of (lit "OK"))
    then record { code = c.code; success = true; error = []; result = leaf (text c.msg) }
    else record { code = c.code; success = false; error = c.msg; result = leaf nil }

-- `ReturnFail`
abbrev pub return_fail : CodeType → Text → Response
return_fail c e = record { code = c.code; success = false; error = e; result = leaf nil }

-- `ReturnSuccess`
abbrev pub return_success : Value → Response
return_success v = record {
  code = (code_of (lit "OK")).code;
  success = true;
  error = [];
  result = v;
}
