-- ===== src/Gateway/Reader.antt =====
-- gateway/read.go: the goroutine that reads the messages of a connection.
pub mod Handling
pub mod Replies
pub mod Serving
mod Tests
use aliyun_ahas.Common.{
  ℕ, zero, suc, Text, lit, is_empty, text_eq, ◌++◌, List, [], ◌∷◌, Bool, true, false, ◌&&◌, Option,
  none, some, Result, ok, err, panic, diverge, ◌==◌, if◌then◌else◌,
}
use aliyun_ahas.Tools.Gzip.{Gzip}
use aliyun_ahas.Gateway.Message.{
  AgwMessage, new_agw_message, message_type_biz, message_type_heartbeat, message_direction_request,
  message_direction_response,
}
use aliyun_ahas.Gateway.Stream.{Reader}
use aliyun_ahas.Gateway.Codec.{decode}

-- The registered handlers: `Handle` by name. A handler gives a text, an error, or panics.
abbrev pub Handlers : Type 0
Handlers = Text → Option (Text → Result Text)

-- `AddHandler`, with `none` for a nil handler.
unfoldable pub add_handler : Text → Option (Text → Result Text) → Handlers → Option Text × Handlers
add_handler name handler handlers =
    if is_empty name then (some (lit "handlerName can not be blank"), handlers) else elim handler [
      | none ↦ (some (lit "hander can not be null"), handlers)
      | some h ↦ (none, λ other. if text_eq name other then some h else handlers other)
    ]

-- What the goroutine does for a message: `notify`, a write of a reply on the connection, nothing, or a
-- panic that ends the process; `stall`: a handler that never returns.
pub data Reaction : Type 0 where
  notify : AgwMessage → Reaction
  reply : AgwMessage → Reaction
  ignore : AgwMessage → Reaction
  crash : Reaction
  stall : Reaction

pub answer : AgwMessage → Result Text → Reaction
answer m (ok response) =
    reply (record m { message_direction = message_direction_response; body = response })
answer m (err e) = reply (record m {
  inner_code = 8035;
  inner_msg = lit "executing client handler wrong : " ++ e;
  message_direction = message_direction_response;
})
answer m panic = crash
answer m diverge = stall

answer_by : AgwMessage → Option (Text → Result Text) → Reaction
answer_by m none = reply (record m {
  inner_code = 8034;
  inner_msg = lit "can not get client handler by handlerName";
  message_direction = message_direction_response;
})
answer_by m (some handle) = answer m (handle m.body)

-- `handleRequest`
unfoldable pub handle_request : Handlers → AgwMessage → Reaction
unfolding answer answer_by
handle_request handlers m = answer_by m (handlers m.handler_name)

-- The ladder of `runReaderCoroutine`. The last two branches do nothing.
unfoldable pub react : Handlers → AgwMessage → Reaction
react handlers m =
    if m.message_type == message_type_biz && m.message_direction == message_direction_response
    then notify m
    else if m.message_type == message_type_biz && m.message_direction == message_direction_request
    then handle_request handlers m
    else if m.message_type == message_type_heartbeat
        && m.message_direction == message_direction_response
    then ignore m
    else if m.message_type == message_type_heartbeat
        && m.message_direction == message_direction_request
    then reply (record m { message_direction = message_direction_response })
    else ignore m

-- How the goroutine is after a number of messages: it has closed the connection on an error, it would
-- read on, it has crashed, or it is held up.
pub data Ended : Type 0 where
  closed_on : Text → Ended
  reading_on : Ended
  crashed : Ended
  stalled : Ended

carry_on : Reaction → List Reaction × Ended → List Reaction × Ended
carry_on crash rest = (crash ∷ [], crashed)
carry_on stall rest = (stall ∷ [], stalled)
carry_on (notify m) rest = (notify m ∷ rest.0, rest.1)
carry_on (reply m) rest = (reply m ∷ rest.0, rest.1)
carry_on (ignore m) rest = (ignore m ∷ rest.0, rest.1)

module _ (rd : Reader) (gz : Gzip) (handlers : Handlers) where
  serve :
      Result (AgwMessage × rd.State) → (rd.State → List Reaction × Ended) → List Reaction × Ended
  unfolding carry_on
  serve (ok (m, t)) go = carry_on (react handlers m) (go t)
  serve (err e) go = ([], closed_on e)
  serve panic go = ([], crashed)
  serve diverge go = ([], stalled)

  -- The loop of `runReaderCoroutine`, for at most `n` messages: the reactions in order.
  pub run_reader : ℕ → rd.State → List Reaction × Ended
  run_reader zero s = ([], reading_on)
  run_reader (suc n) s = serve (decode rd gz new_agw_message s) (λ t. run_reader n t)
