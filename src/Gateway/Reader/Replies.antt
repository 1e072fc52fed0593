-- ===== src/Gateway/Reader/Replies.antt =====
-- Replies to requests (gateway/read.go).
use aliyun_ahas.Common.{
  ◌≢◌, Text, ◌≡◌, ◌∙◌, refl, Option, none, some, Result, ok, err, panic, diverge, arith,
}
use aliyun_ahas.Gateway.Message.{
  AgwMessage, message_type_biz, message_direction_request, message_direction_response,
}
use aliyun_ahas.Gateway.Sync.{get_sync_id}
use aliyun_ahas.Gateway.Reader.Handling.{react-request}
use aliyun_ahas.Gateway.Reader.{Handlers, reply, handle_request, answer, answer_by, react}

-- A reply goes back to the caller: it is a response of the kind of the request, and carries the key
-- under which the caller waits, its connection and its request id.
pub record IsReplyTo (m r : AgwMessage) : Type 0 where
  pub responds : r.message_direction ≡ message_direction_response
  pub same_type : r.message_type ≡ m.message_type
  pub same_key : get_sync_id r ≡ get_sync_id m
  pub same_connection : r.connection_id ≡ m.connection_id
  pub same_outer : r.outer_req_id ≡ m.outer_req_id

-- Whatever the message and the handlers, what the reader writes is a reply to the message that it read.
pub react_replies :
    (handlers : Handlers) (m r : AgwMessage) → react handlers m ≡ reply r → IsReplyTo m r
unfolding react handle_request get_sync_id
react_replies handlers m r e = ground arith

-- The handler of the message, if there is one, returns.
abbrev pub Returns : AgwMessage → Option (Text → Result Text) → Type 0
Returns m none = Unit
Returns m (some handle) = (handle m.body ≢ panic) × (handle m.body ≢ diverge)

answer_replies :
    (m : AgwMessage) (result : Result Text)
    → result ≢ panic
    → result ≢ diverge
    → (r : AgwMessage) × (answer m result ≡ reply r)
unfolding answer
answer_replies m (ok x) p q = (_, refl)
answer_replies m (err e) p q = (_, refl)
answer_replies m panic p q = absurd (p refl)
answer_replies m diverge p q = absurd (q refl)

answer_by_replies :
    (m : AgwMessage) (o : Option (Text → Result Text))
    → Returns m o
    → (r : AgwMessage) × (answer_by m o ≡ reply r)
unfolding answer_by
answer_by_replies m none h = (_, refl)
answer_by_replies m (some handle) h = answer_replies m (handle m.body) h.0 h.1

-- Every business request is answered, also where no handler has its name or its handler fails, unless
-- the handler panics or never returns.
pub business_request_answered :
    (handlers : Handlers) (m : AgwMessage)
    → m.message_type ≡ message_type_biz
    → m.message_direction ≡ message_direction_request
    → Returns m (handlers m.handler_name)
    → (r : AgwMessage) × (react handlers m ≡ reply r) × IsReplyTo m r
unfolding handle_request
business_request_answered handlers m type direction h =
    let (r, e) = answer_by_replies m (handlers m.handler_name) h in
    let replied : react handlers m ≡ reply r = react-request handlers m type direction ∙ e in
    (r, replied, react_replies handlers m r replied)
