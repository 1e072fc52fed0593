-- ===== src/Gateway/Sync.antt =====
-- gateway/sync.go and `close` of gateway/conn.go: the requests in flight on one connection. Any number
-- of calls of `wait` run beside the one reader goroutine, which calls `notify` and at last `close`.
-- An `Action` is one access to the shared map or to a channel, so a list of actions is an
-- interleaving. The channel that the `c`-th call makes is channel `c`.
pub mod Invariant
pub mod Safety
pub mod Answers
pub mod Promised
pub mod Arrived
pub mod Keys
mod Tests
use aliyun_ahas.Common.{
  ℕ, Text, lit, text_eq, decimal, List, [], ◌∷◌, ◌++◌, Bool, true, false, ◌||◌, Option, none, some,
  Result, ok, err, ◌≡◌, ◌==◌, if◌then◌else◌,
}
use aliyun_ahas.Gateway.Message.{AgwMessage, new_agw_message}

abbrev pub error_msg_conn_closed : Text
error_msg_conn_closed = lit "connection closed"

abbrev pub error_msg_request_timeout : Text
error_msg_request_timeout = lit "request timeout"

abbrev pub error_msg_dup_id : Text
error_msg_dup_id = lit "dup msg id"

-- `getSyncId`
unfoldable pub get_sync_id : AgwMessage → Text
get_sync_id m =
    m.client_vpc_id
    ++ (lit "-"
        ++ (decimal m.client_ip
            ++ (lit "-" ++ (m.client_process_flag ++ (lit "-" ++ decimal m.req_id)))))

-- Where a call of `wait` stands: before `LoadOrStore`; in the `select`; with a message taken, or with
-- its time run out, and the entry to be deleted; with the channel to be closed; returned. The text is the call's
-- key.
pub data Call : Type 0 where
  idle : Call
  waiting : Text → Call
  received : Text → AgwMessage → Call
  timed_out : Text → Call
  deleted : Text → AgwMessage → Call
  returned : Text → Result AgwMessage → Call

-- Where the reader stands: between messages; in `notify`, with the channel loaded, or with the entry
-- deleted and the message to be sent; in `close`, with the keys that `Range` has visited, or with a
-- channel to be told; at the end.
pub data ReaderAt : Type 0 where
  reading : ReaderAt
  found : Text → ℕ → AgwMessage → ReaderAt
  sending : ℕ → AgwMessage → ReaderAt
  closing : List Text → ReaderAt
  telling : ℕ → List Text → ReaderAt
  stopped : ReaderAt

-- `entry` is the `sync.Map`; `buffer` and `closed` are the channels, of capacity 1.
pub record Flight : Type 0 where
  pub entry : Text → Option ℕ
  pub call : ℕ → Call
  pub buffer : ℕ → Option AgwMessage
  pub closed : ℕ → Bool
  pub reader : ReaderAt

pub data Action : Type 0 where
  register : ℕ → Text → Action
  receive : ℕ → Action
  expire : ℕ → Action
  unregister : ℕ → Action
  finish : ℕ → Action
  load : AgwMessage → Action
  delete : Action
  send : Action
  start_close : Action
  visit : Text → Action
  tell : Action
  end_close : Action

-- `blocked`: a send on a full channel. `fault`: a send on a closed channel, or a second `close` of
-- one, both of which panic. `disabled`: nobody stands before that action.
pub data Outcome : Type 0 where
  next : Flight → Outcome
  disabled : Outcome
  blocked : Outcome
  fault : Outcome

abbrev pub update {ℓ} : {A : Type ℓ} → (ℕ → A) → ℕ → A → ℕ → A
update f c a d = if c == d then a else f d

abbrev pub store : (Text → Option ℕ) → Text → Option ℕ → Text → Option ℕ
store f k v j = if text_eq k j then v else f j

-- What `wait` returns for the message that it took.
unfoldable pub wait_result : AgwMessage → Result AgwMessage
wait_result m =
    if text_eq m.inner_msg error_msg_conn_closed then err error_msg_conn_closed else ok m

-- The message by which `close` tells the calls.
abbrev pub conn_closed_msg : AgwMessage
conn_closed_msg = record new_agw_message { inner_msg = error_msg_conn_closed }

abbrev register_at : Flight → ℕ → Text → Option ℕ → Outcome
register_at s c id (some other) = next (record s {
  closed = update s.closed c true;
  call = update s.call c (returned id (err error_msg_dup_id));
})
register_at s c id none =
    next (record s { entry = store s.entry id (some c); call = update s.call c (waiting id) })

abbrev receive_at : Flight → ℕ → Text → Option AgwMessage → Outcome
receive_at s c id none = disabled
receive_at s c id (some m) =
    next (record s { buffer = update s.buffer c none; call = update s.call c (received id m) })

-- The steps of `wait`, for the call `c`.
pub wait_step : Flight → ℕ → Action → Call → Outcome
wait_step s c (register _ id) idle = register_at s c id (s.entry id)
wait_step s c (receive _) (waiting id) = receive_at s c id (s.buffer c)
wait_step s c (expire _) (waiting id) = next (record s { call = update s.call c (timed_out id) })
wait_step s c (unregister _) (received id m) =
    next (record s { entry = store s.entry id none; call = update s.call c (deleted id m) })
wait_step s c (unregister _) (timed_out id) = next (record s {
  entry = store s.entry id none;
  call = update s.call c (returned id (err error_msg_request_timeout));
})
wait_step s c (finish _) (deleted id m) =
    if s.closed c
    then fault
    else next (record s {
      closed = update s.closed c true;
      call = update s.call c (returned id (wait_result m));
    })
wait_step s c _ _ = disabled

-- `ch <- msg`
abbrev send_to : Flight → ℕ → AgwMessage → ReaderAt → Bool → Option AgwMessage → Outcome
send_to s c m after true _ = fault
send_to s c m after false (some _) = blocked
send_to s c m after false none =
    next (record s { buffer = update s.buffer c (some m); reader = after })

abbrev load_at : Flight → Text → AgwMessage → Option ℕ → Outcome
load_at s id m none = next s
load_at s id m (some c) = next (record s { reader = found id c m })

abbrev pub is_visited : Text → List Text → Bool
is_visited id [] = false
is_visited id (j ∷ v) = text_eq j id || is_visited id v

abbrev visit_at : Flight → Text → List Text → Option ℕ → Outcome
visit_at s id v none = disabled
visit_at s id v (some c) =
    if is_visited id v then disabled else next (record s { reader = telling c (id ∷ v) })

-- The steps of `notify` and of `close`.
pub reader_step : Flight → Action → ReaderAt → Outcome
reader_step s (load m) reading = load_at s (get_sync_id m) m (s.entry (get_sync_id m))
reader_step s delete (found id c m) =
    next (record s { entry = store s.entry id none; reader = sending c m })
reader_step s send (sending c m) = send_to s c m reading (s.closed c) (s.buffer c)
reader_step s start_close reading = next (record s { reader = closing [] })
reader_step s (visit id) (closing v) = visit_at s id v (s.entry id)
reader_step s tell (telling c v) = send_to s c conn_closed_msg (closing v) (s.closed c) (s.buffer c)
reader_step s end_close (closing v) = next (record s { reader = stopped })
reader_step s _ _ = disabled

unfoldable pub step : Flight → Action → Outcome
unfolding wait_step reader_step
step s (register c id) = wait_step s c (register c id) (s.call c)
step s (receive c) = wait_step s c (receive c) (s.call c)
step s (expire c) = wait_step s c (expire c) (s.call c)
step s (unregister c) = wait_step s c (unregister c) (s.call c)
step s (finish c) = wait_step s c (finish c) (s.call c)
step s a = reader_step s a s.reader

-- A connection on which nothing has happened.
unfoldable pub start : Flight
start = record {
  entry = λ id. none;
  call = λ c. idle;
  buffer = λ c. none;
  closed = λ c. false;
  reader = reading;
}

-- The states that some interleaving leads to.
pub data Reach : Flight → Type 0 where
  here : Reach start
  then : {s t : Flight} (a : Action) → Reach s → step s a ≡ next t → Reach t
