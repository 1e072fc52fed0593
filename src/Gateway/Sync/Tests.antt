-- ===== src/Gateway/Sync/Tests.antt =====
-- Runs of calls on one connection.
use aliyun_ahas.Common.{◌≡◌, ◌≢◌, refl, lit, Text, Result, List, [], ◌∷◌, text_eq, decimal}
use aliyun_ahas.Gateway.Message.{AgwMessage, new_agw_message}
use aliyun_ahas.Gateway.Sync.{
  Flight, returned, Action, register, receive, unregister, finish, expire, load, delete, send,
  start_close, Outcome, next, blocked, fault, get_sync_id, wait_result, step, start, Reach, here,
  then,
}
use aliyun_ahas.Gateway.Sync.Promised.{run}
use aliyun_ahas.Gateway.Sync.Arrived.{Ends, loaded_response_returned}
use aliyun_ahas.Gateway.Sync.Safety.{interleavings_safe}
use aliyun_ahas.Gateway.Sync.Answers.{response_matches_request}

abbrev response : AgwMessage
response = record new_agw_message { req_id = 7; client_vpc_id = lit "vpc" }

abbrev key : Text
key = get_sync_id response

abbrev state_of : Outcome → Flight
state_of (next s) = s
state_of _ = start

abbrev history : List Action
history =
    register 0 key
    ∷ register 1 key
    ∷ load response
    ∷ delete
    ∷ send
    ∷ receive 0
    ∷ unregister 0
    ∷ finish 0
    ∷ []

-- Two calls with one key: the second is refused, and the first is answered.
abbrev answered_state : Flight
answered_state = state_of (run start history)

answered_state-Reach : Reach answered_state
unfolding run step start text_eq get_sync_id decimal
answered_state-Reach =
    then (finish 0)
      (then (unregister 0)
        (then (receive 0)
          (then send
            (then delete
              (then (load response) (then (register 1 key) (then (register 0 key) here refl) refl)
                refl)
              refl)
            refl)
          refl)
        refl)
      refl

interleavings_safe_example :
    (step answered_state start_close ≢ fault) × (step answered_state start_close ≢ blocked)
interleavings_safe_example = interleavings_safe answered_state start_close answered_state-Reach

response_matches_request_example : key ≡ get_sync_id response
unfolding run step start text_eq get_sync_id decimal wait_result
response_matches_request_example =
    response_matches_request answered_state answered_state-Reach 0 key response refl

-- Call 2 waits under the key; behind the load another call registers, and the reader goes on.
abbrev waiting_state : Flight
waiting_state = state_of (run answered_state (register 2 key ∷ []))

abbrev later : List Action
later = delete ∷ register 3 (lit "other") ∷ send ∷ expire 3 ∷ receive 2 ∷ []

waiting_state-Reach : Reach waiting_state
unfolding run step start text_eq get_sync_id decimal
waiting_state-Reach = then (register 2 key) answered_state-Reach refl

loaded_response_returned_example :
    ((j : Text) (q : Result AgwMessage)
      → (state_of (run waiting_state (load response ∷ later))).call 2 ≡ returned j q
      → q ≡ wait_result response)
    × Ends (state_of (run waiting_state (load response ∷ later))) 2 (wait_result response)
unfolding run step start text_eq get_sync_id decimal
loaded_response_returned_example =
    loaded_response_returned waiting_state (state_of (run waiting_state (load response ∷ later))) 2
      key response later waiting_state-Reach refl refl (refl, (refl, (refl, (refl, (refl, tt)))))
      refl
