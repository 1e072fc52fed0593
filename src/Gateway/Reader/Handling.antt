-- ===== src/Gateway/Reader/Handling.antt =====
-- Registered handlers (`AddHandler` of gateway/gateway.go, `handleRequest` of gateway/read.go).
use aliyun_ahas.Common.{
  Text, is_empty, ◌≡◌, ◌∙◌, refl, text_eq_self, false, none, some, Result, arith,
}
use aliyun_ahas.Gateway.Message.{AgwMessage, message_type_biz, message_direction_request}
use aliyun_ahas.Gateway.Reader.{Handlers, add_handler, answer, answer_by, handle_request, react}

pub react-request :
    (handlers : Handlers) (m : AgwMessage)
    → m.message_type ≡ message_type_biz
    → m.message_direction ≡ message_direction_request
    → react handlers m ≡ handle_request handlers m
unfolding react
react-request handlers m type direction = ground arith

handle_request-added :
    (handlers : Handlers) (handle : Text → Result Text) (m : AgwMessage)
    → is_empty m.handler_name ≡ false
    → ((add_handler m.handler_name (some handle) handlers).0 ≡ none)
      × (handle_request (add_handler m.handler_name (some handle) handlers).1 m
          ≡ answer m (handle m.body))
unfolding add_handler handle_request answer_by
handle_request-added handlers handle m given = rw given (refl, rw (text_eq_self m.handler_name))

-- After a handler was added under a name that is not blank, the business requests for that name are
-- answered by it, whatever stood there before.
pub added_handler_answers :
    (handlers : Handlers) (handle : Text → Result Text) (m : AgwMessage)
    → m.message_type ≡ message_type_biz
    → m.message_direction ≡ message_direction_request
    → is_empty m.handler_name ≡ false
    → ((add_handler m.handler_name (some handle) handlers).0 ≡ none)
      × (react (add_handler m.handler_name (some handle) handlers).1 m ≡ answer m (handle m.body))
added_handler_answers handlers handle m type direction given =
    let (added, answered) = handle_request-added handlers handle m given in
    (added, react-request _ m type direction ∙ answered)
