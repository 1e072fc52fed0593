-- ===== src/Gateway/Message.antt =====
-- gateway/protocol.go: the message record, its constants, its constructor and its setters.
use aliyun_ahas.Common.{ℕ, Text, lit, []}

abbrev pub message_type_heartbeat : ℕ
message_type_heartbeat = 1

abbrev pub message_type_biz : ℕ
message_type_biz = 2

abbrev pub message_direction_request : ℕ
message_direction_request = 1

abbrev pub message_direction_response : ℕ
message_direction_response = 2

abbrev pub no_compress : ℕ
no_compress = 1

abbrev pub all_compress : ℕ
all_compress = 2

abbrev pub request_compress : ℕ
request_compress = 3

abbrev pub response_compress : ℕ
response_compress = 4

-- The unsigned fields are plain numbers; their widths are stated where they matter. `tsUtil`, which
-- no code of the package sets, is left out.
pub record AgwMessage : Type 0 where
  pub body_length : ℕ  -- uint32
  pub req_id : ℕ  -- uint64
  pub message_type : ℕ  -- uint8
  pub message_direction : ℕ  -- uint8
  pub caller : ℕ  -- uint8
  pub client_ip : ℕ  -- uint64
  pub client_vpc_id_length : ℕ  -- uint32
  pub client_vpc_id : Text
  pub server_name_length : ℕ  -- uint32
  pub server_name : Text
  pub timeout_ms : ℕ  -- uint32
  pub client_process_flag_length : ℕ  -- uint32
  pub client_process_flag : Text
  pub inner_code : ℕ  -- uint32
  pub inner_msg_length : ℕ  -- uint32
  pub inner_msg : Text
  pub connection_id : ℕ  -- uint32
  pub handler_name_length : ℕ  -- uint32
  pub handler_name : Text
  pub outer_req_id_length : ℕ  -- uint32
  pub outer_req_id : Text
  pub version : ℕ  -- uint32
  pub body : Text

-- `NewAgwMessage`
abbrev pub new_agw_message : AgwMessage
new_agw_message = record {
  body_length = 0;
  req_id = 0;
  message_type = 0;
  message_direction = 0;
  caller = 0;
  client_ip = 0;
  client_vpc_id_length = 0;
  client_vpc_id = [];
  server_name_length = 0;
  server_name = [];
  timeout_ms = 0;
  client_process_flag_length = 0;
  client_process_flag = [];
  inner_code = 0;
  inner_msg_length = 0;
  inner_msg = lit "ok";
  connection_id = 0;
  handler_name_length = 0;
  handler_name = [];
  outer_req_id_length = 0;
  outer_req_id = [];
  version = 1;
  body = [];
}
