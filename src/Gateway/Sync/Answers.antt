-- ===== src/Gateway/Sync/Answers.antt =====
-- A call of `wait` is only ever given the response to its own request (gateway/sync.go).
use aliyun_ahas.Common.{
  ℕ, Text, text_eq, text_eq→eq, text_eq_self, Bool, true, false, ◌&&◌, ◌||◌, Option, none, some,
  ◌≡◌, Result, ok, arith, [],
}
use aliyun_ahas.Gateway.Message.{AgwMessage}
use aliyun_ahas.Gateway.Sync.{
  Flight, Call, idle, waiting, received, timed_out, deleted, returned, ReaderAt, found, sending,
  Action, register, receive, expire, unregister, finish, load, delete, send, start_close, visit,
  tell, end_close, next, get_sync_id, error_msg_conn_closed, wait_result, step, start, Reach, here,
  then,
}
use aliyun_ahas.Gateway.Sync.Invariant.{Inv, Reach-Inv, target}

-- The message has the key, or is the one by which `close` tells the calls.
abbrev answers : AgwMessage → Text → Bool
answers m id = text_eq id (get_sync_id m) || text_eq m.inner_msg error_msg_conn_closed

abbrev keyed : Call → Text → Bool
keyed idle id = false
keyed (waiting j) id = text_eq j id
keyed (received j m) id = text_eq j id
keyed (timed_out j) id = text_eq j id
keyed (deleted j m) id = text_eq j id
keyed (returned j r) id = text_eq j id

abbrev fits : Call → AgwMessage → Bool
fits idle m = false
fits (waiting id) m = answers m id
fits (received id _) m = answers m id
fits (timed_out id) m = answers m id
fits (deleted id _) m = answers m id
fits (returned id r) m = answers m id

abbrev result_fits : Text → Result AgwMessage → Bool
result_fits id (ok m) = text_eq id (get_sync_id m)
result_fits id _ = true

-- What the call took, and what it returned, answers it.
abbrev taken_fits : Call → Bool
taken_fits (received id m) = answers m id
taken_fits (deleted id m) = answers m id
taken_fits (returned id r) = result_fits id r
taken_fits _ = true

-- What the reader holds for the channel of a call answers that call.
abbrev aim_fits : ReaderAt → Call → Bool
aim_fits (found id c m) k = text_eq id (get_sync_id m) && keyed k (get_sync_id m)
aim_fits (sending c m) k = keyed k (get_sync_id m)
aim_fits _ k = true

abbrev buffer_fits : Option AgwMessage → Call → Bool
buffer_fits none k = true
buffer_fits (some m) k = fits k m

record AnswersAt (s : Flight) (c : ℕ) : Type 0 where
  aim : target s.reader c ≡ true → aim_fits s.reader (s.call c) ≡ true
  buffered : buffer_fits (s.buffer c) (s.call c) ≡ true
  taken : taken_fits (s.call c) ≡ true

abbrev Answers : Flight → Type 0
Answers s = (c : ℕ) → AnswersAt s c

start-Answers : Answers start
unfolding start
start-Answers c = ground arith

module _ (s t : Flight) (inv : Inv s) (ans : Answers s) (c : ℕ) where
  register-AnswersAt : (d : ℕ) → (k : Text) → step s (register d k) ≡ next t → AnswersAt t c
  unfolding step
  register-AnswersAt d k e = ground (arith, inv k c, ans c)

  receive-AnswersAt : (d : ℕ) → step s (receive d) ≡ next t → AnswersAt t c
  unfolding step
  receive-AnswersAt d e = ground (arith, inv [] c, ans c)

  expire-AnswersAt : (d : ℕ) → step s (expire d) ≡ next t → AnswersAt t c
  unfolding step
  expire-AnswersAt d e = ground (arith, inv [] c, ans c)

  unregister-AnswersAt : (d : ℕ) → step s (unregister d) ≡ next t → AnswersAt t c
  unfolding step
  unregister-AnswersAt d e = ground (arith, inv [] c, ans c)

  finish-AnswersAt : (d : ℕ) → step s (finish d) ≡ next t → AnswersAt t c
  unfolding step wait_result
  finish-AnswersAt d e = ground (arith, inv [] c, ans c)

  load-AnswersAt : (m : AgwMessage) → step s (load m) ≡ next t → AnswersAt t c
  unfolding step
  load-AnswersAt m e = ground (arith, inv (get_sync_id m) c, ans c, text_eq_self (get_sync_id m))

  delete-AnswersAt : step s delete ≡ next t → AnswersAt t c
  unfolding step
  delete-AnswersAt e = ground (arith, inv [] c, ans c)

  send-AnswersAt : step s send ≡ next t → AnswersAt t c
  unfolding step
  send-AnswersAt e = ground (arith, inv [] c, ans c)

  start_close-AnswersAt : step s start_close ≡ next t → AnswersAt t c
  unfolding step
  start_close-AnswersAt e = ground (arith, inv [] c, ans c)

  visit-AnswersAt : (k : Text) → step s (visit k) ≡ next t → AnswersAt t c
  unfolding step
  visit-AnswersAt k e = ground (arith, inv k c, ans c)

  tell-AnswersAt : step s tell ≡ next t → AnswersAt t c
  unfolding step
  tell-AnswersAt e = ground (arith, inv [] c, ans c, text_eq_self error_msg_conn_closed)

  end_close-AnswersAt : step s end_close ≡ next t → AnswersAt t c
  unfolding step
  end_close-AnswersAt e = ground (arith, inv [] c, ans c)

step-Answers : (s t : Flight) (a : Action) → Inv s → Answers s → step s a ≡ next t → Answers t
step-Answers s t (register d k) inv ans e c = register-AnswersAt s t inv ans c d k e
step-Answers s t (receive d) inv ans e c = receive-AnswersAt s t inv ans c d e
step-Answers s t (expire d) inv ans e c = expire-AnswersAt s t inv ans c d e
step-Answers s t (unregister d) inv ans e c = unregister-AnswersAt s t inv ans c d e
step-Answers s t (finish d) inv ans e c = finish-AnswersAt s t inv ans c d e
step-Answers s t (load m) inv ans e c = load-AnswersAt s t inv ans c m e
step-Answers s t delete inv ans e c = delete-AnswersAt s t inv ans c e
step-Answers s t send inv ans e c = send-AnswersAt s t inv ans c e
step-Answers s t start_close inv ans e c = start_close-AnswersAt s t inv ans c e
step-Answers s t (visit k) inv ans e c = visit-AnswersAt s t inv ans c k e
step-Answers s t tell inv ans e c = tell-AnswersAt s t inv ans c e
step-Answers s t end_close inv ans e c = end_close-AnswersAt s t inv ans c e

Reach-Answers : {s : Flight} → Reach s → Answers s
Reach-Answers here = start-Answers
Reach-Answers (then {s} {t} a r e) = step-Answers s t a (Reach-Inv r) (Reach-Answers r) e

-- In every interleaving, a message that a call of `wait` returns carries the call's own key: no call
-- is given the response to another.
pub response_matches_request :
    (s : Flight)
    → Reach s
    → (c : ℕ) (id : Text) (m : AgwMessage) → s.call c ≡ returned id (ok m)
    → id ≡ get_sync_id m
response_matches_request s r c id m e =
    text_eq→eq id (get_sync_id m) (ground (arith, Reach-Answers r c))
